-- ===== src/Manager/Models/Downloads.antt =====
-- What a download leaves behind.
use ob2_turbo_quant.Common.{
  ℕ, refl, ap, ◌∙◌, ltb, ◌+◌, ◌≤◌, ◌≡◌, Bool, true, false, none, some, List, [], ◌∷◌, Text,
  text_key, any, arith, Bool-cases, Option-cases, inl, inr,
}
use ob2_turbo_quant.Common.JsMap
use ob2_turbo_quant.Common.JsMap.{get-set_self}
use ob2_turbo_quant.Manager.Models.{
  is_safe_filename, max_pull_bytes, Target, Response, Piece, chunk, fault, Files, write_body,
  rename_partial, download, resolve_and_check, pull_from_url, partial_name,
}

-- The bytes of a body that arrive, and those that reach the disk.
unfoldable pub received : List Piece → ℕ
received [] = 0
received (chunk size taken ∷ ps) = size + received ps
received (fault ∷ ps) = received ps

unfoldable pub stored : List Piece → ℕ
stored [] = 0
stored (chunk size taken ∷ ps) = taken + stored ps
stored (fault ∷ ps) = stored ps

-- Nothing threw while the body was read and written.
abbrev pub RanThrough : List Piece → Type 0
RanThrough [] = Unit
RanThrough (chunk size taken ∷ ps) = RanThrough ps
RanThrough (fault ∷ ps) = ⊥

-- Every write took its chunk whole.
abbrev pub AreWhole : List Piece → Type 0
AreWhole [] = Unit
AreWhole (chunk size taken ∷ ps) = (taken ≡ size) × AreWhole ps
AreWhole (fault ∷ ps) = AreWhole ps

stored-received : (ps : List Piece) → AreWhole ps → stored ps ≡ received ps
unfolding received stored
stored-received [] h = refl
stored-received (chunk size taken ∷ ps) (whole, h) = omega (arith, whole, stored-received ps h)
stored-received (fault ∷ ps) h = stored-received ps h

write_body-all :
    (written on_disk : ℕ) (ps : List Piece)
    → written ≤ max_pull_bytes
    → (write_body written on_disk ps).1 ≡ none
    → RanThrough ps
      × ((write_body written on_disk ps).0 ≡ on_disk + stored ps)
      × (written + received ps ≤ max_pull_bytes)
unfolding write_body received stored
write_body-all written on_disk [] h e = (tt, omega arith, omega arith)
write_body-all written on_disk (fault ∷ ps) h e = absurd (ground arith)
write_body-all written on_disk (chunk size taken ∷ ps) h e =
    elim (Bool-cases (ltb max_pull_bytes (written + size))) [
      | inl over ↦ absurd (ground arith)
      | inr within ↦
          let (ran, total, capped) =
            write_body-all (written + size) (on_disk + taken) ps (ground arith) (ground arith) in
          (ran, ground arith, omega arith)
    ]

-- A download that is in order: where it came from, and the file that it left.
pub record IsPull (is_denied_ip : Text → Bool) (t : Target) (name : Text) (r : Response)
    (files : Files) : Type 0 where
  pub addresses : List Text
  pub pieces : List Piece
  pub is_safe : is_safe_filename name ≡ true
  pub is_http : t.is_http ≡ true
  pub are_resolved : t.addresses ≡ some addresses
  pub none_denied : any is_denied_ip addresses ≡ false
  pub has_body : r.body ≡ some pieces
  pub ran_through : RanThrough pieces
  pub is_within_cap : received pieces ≤ max_pull_bytes
  pub is_stored : JsMap.get name files ≡ some (stored pieces)
  pub is_whole : AreWhole pieces → JsMap.get name files ≡ some (received pieces)

download-whole :
    (name : Text) (r : Response) (files files' : Files)
    → download name r files ≡ (none, files')
    → (pieces : List Piece) × (r.body ≡ some pieces)
      × RanThrough pieces
      × (received pieces ≤ max_pull_bytes)
      × (JsMap.get name files' ≡ some (stored pieces))
unfolding download rename_partial
download-whole name r files files' e = elim (Option-cases r.body) [
  | inl no_body ↦ absurd (ground arith)
  | inr (pieces, has_body) ↦ elim (Option-cases (write_body 0 0 pieces).1) [
    | inr (thrown, over) ↦ absurd (ground arith)
    | inl within ↦
        let (ran, total, capped) = write_body-all 0 0 pieces (omega arith) within in
        let left =
          JsMap.delete (partial_name name)
            (JsMap.set (partial_name name) (write_body 0 0 pieces).0 files) in
        let here = get-set_self name (write_body 0 0 pieces).0 left in
        (pieces, has_body, ran, omega (arith, capped), ground (arith, here, total))
  ]
]

-- A download that succeeds has a safe file name and an http(s) address none of whose resolved
-- addresses is denied; its body was read to the end without an error and within the cap; and the file
-- then has as many bytes as the writes took, which is the size of the body where none was short.
pub pull_from_url-IsPull :
    (is_denied_ip : Text → Bool) (t : Target) (name : Text) (r : Response) (files files' : Files)
    → pull_from_url is_denied_ip t name r files ≡ (none, files')
    → IsPull is_denied_ip t name r files'
unfolding pull_from_url resolve_and_check
pull_from_url-IsPull is_denied_ip t name r files files' e = elim (Option-cases t.addresses) [
  | inl unresolved_host ↦ absurd (ground arith)
  | inr (ips, resolved) ↦
      let started : download name r files ≡ (none, files') = ground arith in
      let (pieces, has_body, ran, capped, kept) = download-whole name r files files' started in
      record {
        addresses = ips;
        pieces = pieces;
        is_safe = ground arith;
        is_http = ground arith;
        are_resolved = resolved;
        none_denied = ground arith;
        has_body = has_body;
        ran_through = ran;
        is_within_cap = capped;
        is_stored = kept;
        is_whole = λ whole. kept ∙ ap (λ n. some n) (stored-received pieces whole);
      }
]
