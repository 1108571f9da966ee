-- ===== src/Knowledge/Gateway.antt =====
-- server/routes/gateway.ts: the OpenAI-compatible chat. `now_sec` is the time in seconds, `sign` and
-- `decimal` those of the signed links, `encode` is `encodeURIComponent`, and the chat provider and
-- the sidecar answer `none` where they throw.
pub mod Prefix
pub mod Chat
pub mod Links
use ob2_turbo_quant.Common.{
  ℕ, Bool, true, false, ◌||◌, Option, none, some, List, [], ◌∷◌, ◌++◌, if◌then◌else◌, Text, text_eq,
  codes, is_empty, option_or, any, length, ltb,
}
use ob2_turbo_quant.Auth.FileSigning.{sign_file_token, default_ttl_sec}
use ob2_turbo_quant.Knowledge.{Doc, Reply, ChatMessage}

-- `lastUserQuery`
unfoldable pub last_user_query : List ChatMessage → Text
last_user_query [] = []
last_user_query (m ∷ ms) =
    let later = last_user_query ms in
    if any (λ x. text_eq x.role (codes "user")) ms
    then later
    else if text_eq m.role (codes "user")
    then m.content
    else []

-- A file of the "ORIGINAL FILES" section: its name, and its link where the server has a public address.
pub record SourceLine : Type 0 where
  pub filename : Text
  pub link : Option Text

module _ (sign : Text → Text) (decimal : ℕ → Text) (encode : Text → Text) where
  abbrev pub link_text : Text → Text → Text → Text → ℕ → Text
  link_text public_url domain file_id token exp =
      public_url
      ++ (codes "/admin/domains/"
          ++ (encode domain
              ++ (codes "/imports/"
                  ++ (encode file_id
                      ++ (codes "?t=" ++ (encode token ++ (codes "&exp=" ++ decimal exp)))))))

  unfoldable pub link_of : Text → ℕ → Text → Text → Text
  link_of public_url now_sec domain file_id =
      let (token, exp) = sign_file_token sign decimal now_sec domain file_id default_ttl_sec in
      link_text public_url domain file_id token exp

  -- `d._ob2_import_filename || "uploaded-file"`
  abbrev pub filename_of : Doc → Text
  filename_of d =
      let own = option_or d.import_filename [] in
      if is_empty own then codes "uploaded-file" else own

  abbrev pub line_of : Text → ℕ → Text → Doc → SourceLine
  line_of public_url now_sec file_id d = record {
    filename = filename_of d;
    link = if is_empty public_url then none else some (link_of public_url now_sec d.source file_id);
  }

  -- The lines, one for each file that `seen` lacks, with the file's id.
  unfoldable pub source_lines : Text → ℕ → List Text → List Doc → List (Text × SourceLine)
  source_lines public_url now_sec seen [] = []
  source_lines public_url now_sec seen (d ∷ ds) =
      let file_id = option_or d.import_file_id [] in
      let later = source_lines public_url now_sec (file_id ∷ seen) ds in
      let rest = source_lines public_url now_sec seen ds in
      if is_empty file_id || any (text_eq file_id) seen
      then rest
      else (file_id, line_of public_url now_sec file_id d) ∷ later

  abbrev line_text : SourceLine → Text
  line_text l = elim l.link [
    | none ↦ codes "- " ++ l.filename
    | some url ↦ codes "- " ++ (l.filename ++ (codes ": " ++ url))
  ]

  abbrev join_lines : List (Text × SourceLine) → Text
  join_lines [] = []
  join_lines ((id, l) ∷ ls) = codes "\n" ++ (line_text l ++ join_lines ls)

  abbrev pub sources_block : List (Text × SourceLine) → Text
  sources_block [] = []
  sources_block (l ∷ ls) = codes "\n\n=== ORIGINAL FILES ===" ++ join_lines (l ∷ ls)

  -- The messages with the retrieved context before them. `instructions` and `citing` are the two
  -- fixed texts of the system message, before the sources and for the list of files.
  unfoldable pub augment_with_context :
      (instructions citing : Text) → Text → ℕ → List ChatMessage → Reply → List ChatMessage
  augment_with_context instructions citing public_url now_sec messages ctx =
      let ls = source_lines public_url now_sec [] ctx.docs in
      let system : ChatMessage = record {
        role = codes "system";
        content =
            instructions
            ++ (ctx.compressed_text
                ++ (codes "\n"
                    ++ (sources_block ls
                        ++ (codes "\n\n" ++ (if ltb 0 (length ls) then citing else [])))));
      } in
      if ctx.unknown_domain || is_empty ctx.compressed_text then messages else system ∷ messages
