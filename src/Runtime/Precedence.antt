-- ===== src/Runtime/Precedence.antt =====
-- The environment over the file, the file over the defaults.
use ob2_turbo_quant.Common.{
  ◌≡◌, ◌≢◌, ◌⊎◌, inl, inr, ◌↔◌, ◌||◌, refl, arith, sym, ◌∙◌, ap, subst, some_inj, Bool, true, false,
  not, ◌&&◌, Option, none, some, List, [], ◌∷◌, Text, text_eq, text_eq_iff, codes, is_empty, any,
  Bool-cases, inl, inr, if◌then◌else◌,
}
use ob2_turbo_quant.Runtime.Values.{
  Number, not_a_number, integer, decimal, infinity, minus_infinity, Value, null, bool, num, str,
  obj, arr, Fields, get, put, deep_merge, is_truthy,
}
use ob2_turbo_quant.Runtime.Settings.{env_keys, defaults}
use ob2_turbo_quant.Runtime.{
  Environment, coerce, set_leaf, override_of, apply_key, apply_env, and_then, put_mail,
  normalize_mail, normalize, merge,
}
use ob2_turbo_quant.Runtime.Overlay.Kept.{get-put_same, get-put_other}

-- The section is an object in which the leaf has the value.
abbrev pub HasLeaf : Text → Text → Option Value → Fields → Type 0
HasLeaf section leaf v cfg = (fs : Fields) × (get section cfg ≡ some (obj fs)) × (get leaf fs ≡ v)

-- What becomes of a leaf that a variable sets, by what the leaf was.
abbrev pub Overrides : (Text → Number) → Option Value → Text → Value → Type 0
Overrides number_of (some (bool b)) v w =
    (x : Bool) × (w ≡ bool x) × ((x ≡ true) ↔ ((v ≡ codes "true") ⊎ (v ≡ codes "1")))
Overrides number_of (some (num n)) v w =
    ((number_of v ≡ not_a_number) × (w ≡ num n))
    ⊎ ((number_of v ≢ not_a_number) × (w ≡ num (number_of v)))
Overrides number_of (some null) v w = w ≡ str v
Overrides number_of (some (str t)) v w = w ≡ str v
Overrides number_of (some (obj fs)) v w = w ≡ str v
Overrides number_of (some (arr fs)) v w = w ≡ str v
Overrides number_of none v w = w ≡ str v

either_text : (v a b : Text) → ((text_eq v a || text_eq v b) ≡ true) ↔ ((v ≡ a) ⊎ (v ≡ b))
either_text v a b = ground (arith, text_eq_iff v a, text_eq_iff v b)

coerce-num-Overrides :
    (number_of : Text → Number) (n : Number) (v : Text) (m : Number)
    → number_of v ≡ m
    → Overrides number_of (some (num n)) v (coerce number_of (some (num n)) v)
unfolding coerce
coerce-num-Overrides number_of n v not_a_number e = inl (e, rw (coerce, e) refl)
coerce-num-Overrides number_of n v (integer sign digits) e =
    inr (λ bad. cc (sym e ∙ bad), rw (coerce, e) refl)
coerce-num-Overrides number_of n v (decimal sign digits scale) e =
    inr (λ bad. cc (sym e ∙ bad), rw (coerce, e) refl)
coerce-num-Overrides number_of n v infinity e = inr (λ bad. cc (sym e ∙ bad), rw (coerce, e) refl)
coerce-num-Overrides number_of n v minus_infinity e =
    inr (λ bad. cc (sym e ∙ bad), rw (coerce, e) refl)

coerce-Overrides :
    (number_of : Text → Number) (old : Option Value) (v : Text)
    → Overrides number_of old v (coerce number_of old v)
unfolding coerce
coerce-Overrides number_of (some (bool b)) v = (
  text_eq v (codes "true") || text_eq v (codes "1"),
  refl,
  either_text v (codes "true") (codes "1"),
)
coerce-Overrides number_of (some (num n)) v = coerce-num-Overrides number_of n v (number_of v) refl
coerce-Overrides number_of (some null) v = refl
coerce-Overrides number_of (some (str t)) v = refl
coerce-Overrides number_of (some (obj fs)) v = refl
coerce-Overrides number_of (some (arr fs)) v = refl
coerce-Overrides number_of none v = refl

kept_or_thrown :
    (b : Bool) (section : Text) (cfg cfg' : Fields)
    → ◌≡◌ {A = Option Fields} (if b then none else some cfg) (some cfg')
    → get section cfg' ≡ get section cfg
kept_or_thrown true section cfg cfg' s = cc
kept_or_thrown false section cfg cfg' s = ap (get section) (sym (some_inj cfg cfg' s))

module _ (e : Environment) where
  -- Setting a leaf of another section.
  set_leaf-other_section :
      (section other leaf v : Text) (cfg cfg' : Fields) (o : Option Value)
      → other ≢ section
      → set_leaf e other leaf v cfg o ≡ some cfg'
      → get section cfg' ≡ get section cfg
  unfolding set_leaf
  set_leaf-other_section section other leaf v cfg cfg' none h s =
      ap (get section) (sym (some_inj cfg cfg' s))
  set_leaf-other_section section other leaf v cfg cfg' (some (obj fs)) h s =
      ap (get section) (sym (some_inj _ cfg' s)) ∙ get-put_other other section _ cfg h
  set_leaf-other_section section other leaf v cfg cfg' (some (arr fs)) h s =
      ap (get section) (sym (some_inj _ cfg' s)) ∙ get-put_other other section _ cfg h
  set_leaf-other_section section other leaf v cfg cfg' (some null) h s =
      ap (get section) (sym (some_inj cfg cfg' s))
  set_leaf-other_section section other leaf v cfg cfg' (some (bool b)) h s =
      kept_or_thrown (is_truthy (bool b)) section cfg cfg' s
  set_leaf-other_section section other leaf v cfg cfg' (some (num n)) h s =
      kept_or_thrown (is_truthy (num n)) section cfg cfg' s
  set_leaf-other_section section other leaf v cfg cfg' (some (str t)) h s =
      kept_or_thrown (is_truthy (str t)) section cfg cfg' s

  -- Setting a leaf of a section that is an object.
  set_leaf-HasLeaf :
      (section leaf other v : Text) (w : Option Value) (cfg cfg' : Fields)
      → leaf ≢ other
      → HasLeaf section other w cfg
      → set_leaf e section leaf v cfg (get section cfg) ≡ some cfg'
      → HasLeaf section other w cfg'
  unfolding set_leaf
  set_leaf-HasLeaf section leaf other v w cfg cfg' h (fs, at, has) s =
      let changed = put leaf (coerce e.number_of (get leaf fs) v) fs in
      let result : some (put section (obj changed) cfg) ≡ some cfg' = rw at at s in
      (
        changed,
        ap (get section) (sym (some_inj (put section (obj changed) cfg) cfg' result))
            ∙ get-put_same section (obj changed) cfg,
        get-put_other leaf other _ fs h ∙ has,
      )

  set_leaf-hit :
      (section leaf v : Text) (cfg cfg' fs : Fields)
      → get section cfg ≡ some (obj fs)
      → set_leaf e section leaf v cfg (get section cfg) ≡ some cfg'
      → HasLeaf section leaf (some (coerce e.number_of (get leaf fs) v)) cfg'
  unfolding set_leaf
  set_leaf-hit section leaf v cfg cfg' fs at s =
      let changed = put leaf (coerce e.number_of (get leaf fs) v) fs in
      let result : some (put section (obj changed) cfg) ≡ some cfg' = rw at at s in
      (
        changed,
        ap (get section) (sym (some_inj (put section (obj changed) cfg) cfg' result))
            ∙ get-put_same section (obj changed) cfg,
        get-put_same leaf _ fs,
      )

and_then-some :
    (o : Option Fields) (f : Fields → Option Fields) (c : Fields)
    → and_then o f ≡ some c
    → (c₁ : Fields) × (o ≡ some c₁) × (f c₁ ≡ some c)
and_then-some none f c h = cc
and_then-some (some c₁) f c h = (c₁, refl, h)

-- The row sets this leaf.
abbrev pub same_key : Text → Text → Text × Text × Text → Bool
same_key section leaf (s, l, name) = text_eq s section && text_eq l leaf

-- The table's only row for the leaf names this variable.
unfoldable pub is_row : Text → Text → Text → List (Text × Text × Text) → Bool
is_row section leaf name [] = false
is_row section leaf name ((s, l, n) ∷ ks) =
    let later = is_row section leaf name ks in
    if same_key section leaf (s, l, n)
    then text_eq n name && not (any (same_key section leaf) ks)
    else later

module _ (e : Environment) (section leaf : Text) where
  apply_key-HasLeaf :
      (s l n : Text) (w : Option Value) (cfg cfg' : Fields)
      → same_key section leaf (s, l, n) ≡ false
      → HasLeaf section leaf w cfg
      → apply_key e (s, l, n) cfg ≡ some cfg'
      → HasLeaf section leaf w cfg'
  unfolding apply_key
  apply_key-HasLeaf s l n w cfg cfg' differs has h =
      elim (Bool-cases (is_empty (override_of e n))) [
        | inl unset ↦
            let same : some cfg ≡ some cfg' = rw unset at h in
            subst (HasLeaf section leaf w) (some_inj cfg cfg' same) has
        | inr is_set ↦
            let changed : set_leaf e s l (override_of e n) cfg (get s cfg) ≡ some cfg' =
              rw is_set at h in
            elim (Bool-cases (text_eq s section)) [
              | inl here ↦
                  let at : s ≡ section = (text_eq_iff s section).0 here in
                  let apart : l ≢ leaf = λ p.
                    (let bad : false ≡ true = sym (rw here at differs) ∙ (text_eq_iff l leaf).1 p in
                      cc) in
                  set_leaf-HasLeaf e section l leaf (override_of e n) w cfg cfg' apart has (
                    subst (λ x. set_leaf e x l (override_of e n) cfg (get x cfg) ≡ some cfg') at
                      changed)
              | inr elsewhere ↦
                  let apart : s ≢ section = λ p.
                    (let bad : false ≡ true = sym elsewhere ∙ (text_eq_iff s section).1 p in cc) in
                  let (fs, at, found) = has in
                  (
                    fs,
                    set_leaf-other_section e section s l (override_of e n) cfg cfg' (get s cfg)
                          apart changed
                        ∙ at,
                    found,
                  )
            ]
      ]

  apply_env-HasLeaf :
      (ks : List (Text × Text × Text)) (w : Option Value) (cfg cfg' : Fields)
      → any (same_key section leaf) ks ≡ false
      → HasLeaf section leaf w cfg
      → apply_env e ks cfg ≡ some cfg'
      → HasLeaf section leaf w cfg'
  unfolding apply_env any
  apply_env-HasLeaf [] w cfg cfg' differ has h =
      subst (HasLeaf section leaf w) (some_inj cfg cfg' h) has
  apply_env-HasLeaf ((s, l, n) ∷ ks) w cfg cfg' differ has h =
      let (cfg₁, applied, rest) =
        and_then-some (apply_key e (s, l, n) cfg) (apply_env e ks) cfg' h in
      apply_env-HasLeaf ks w cfg₁ cfg' (ground arith)
        (apply_key-HasLeaf s l n w cfg cfg₁ (ground arith) has applied) rest

  apply_key_hits :
      (name : Text) (v : Option Value) (cfg cfg' : Fields)
      → is_empty (override_of e name) ≡ false
      → HasLeaf section leaf v cfg
      → apply_key e (section, leaf, name) cfg ≡ some cfg'
      → HasLeaf section leaf (some (coerce e.number_of v (override_of e name))) cfg'
  unfolding apply_key
  apply_key_hits name v cfg cfg' is_set (fs, at, found) h =
      let changed : set_leaf e section leaf (override_of e name) cfg (get section cfg) ≡ some cfg' =
        rw is_set at h in
      subst (λ o. HasLeaf section leaf (some (coerce e.number_of o (override_of e name))) cfg')
        found (set_leaf-hit e section leaf (override_of e name) cfg cfg' fs at changed)

  -- The variable of the table's row wins.
  apply_env_wins :
      (name : Text) (ks : List (Text × Text × Text)) (v : Option Value) (cfg cfg' : Fields)
      → is_row section leaf name ks ≡ true
      → is_empty (override_of e name) ≡ false
      → HasLeaf section leaf v cfg
      → apply_env e ks cfg ≡ some cfg'
      → HasLeaf section leaf (some (coerce e.number_of v (override_of e name))) cfg'
  unfolding apply_env is_row
  apply_env_wins name [] v cfg cfg' row is_set has h = cc row
  apply_env_wins name ((s, l, n) ∷ ks) v cfg cfg' row is_set has h =
      let (cfg₁, applied, rest) =
        and_then-some (apply_key e (s, l, n) cfg) (apply_env e ks) cfg' h in
      elim (Bool-cases (same_key section leaf (s, l, n))) [
        | inl same ↦
            let at_section : s ≡ section = (text_eq_iff s section).0 (ground arith) in
            let at_leaf : l ≡ leaf = (text_eq_iff l leaf).0 (ground arith) in
            let at_name : n ≡ name = (text_eq_iff n name).0 (ground arith) in
            let applied' : apply_key e (section, leaf, name) cfg ≡ some cfg₁ =
              subst (λ x. apply_key e (section, leaf, x) cfg ≡ some cfg₁) at_name
                (subst (λ x. apply_key e (section, x, n) cfg ≡ some cfg₁) at_leaf
                  (subst (λ x. apply_key e (x, l, n) cfg ≡ some cfg₁) at_section applied)) in
            apply_env-HasLeaf ks _ cfg₁ cfg' (ground arith)
              (apply_key_hits name v cfg cfg₁ is_set has applied') rest
        | inr other ↦
            apply_env_wins name ks v cfg₁ cfg' (ground arith) is_set
              (apply_key-HasLeaf s l n v cfg cfg₁ other has applied) rest
      ]

  put_mail-HasLeaf :
      (w : Option Value) (cfg cfg' : Fields) (shape : Fields → Value) (o : Option Fields)
      → codes "mail" ≢ section
      → HasLeaf section leaf w cfg
      → put_mail e cfg shape o ≡ some cfg'
      → HasLeaf section leaf w cfg'
  put_mail-HasLeaf w cfg cfg' shape none h has s = cc
  put_mail-HasLeaf w cfg cfg' shape (some stripped) h (fs, at, found) s = (
    fs,
    ap (get section) (sym (some_inj (put (codes "mail") (shape stripped) cfg) cfg' s))
        ∙ get-put_other (codes "mail") section (shape stripped) cfg h
        ∙ at,
    found,
  )

  normalize_mail-HasLeaf :
      (w : Option Value) (cfg cfg' : Fields) (o : Option Value)
      → codes "mail" ≢ section
      → HasLeaf section leaf w cfg
      → normalize_mail e cfg o ≡ some cfg'
      → HasLeaf section leaf w cfg'
  normalize_mail-HasLeaf w cfg cfg' none h has s = cc
  normalize_mail-HasLeaf w cfg cfg' (some null) h has s = cc
  normalize_mail-HasLeaf w cfg cfg' (some (bool b)) h has s = cc
  normalize_mail-HasLeaf w cfg cfg' (some (num n)) h has s = cc
  normalize_mail-HasLeaf w cfg cfg' (some (str t)) h has s = cc
  normalize_mail-HasLeaf w cfg cfg' (some (obj mail)) h has s =
      put_mail-HasLeaf w cfg cfg' _ _ h has s
  normalize_mail-HasLeaf w cfg cfg' (some (arr mail)) h has s =
      put_mail-HasLeaf w cfg cfg' _ _ h has s

  -- Where the settings can be merged, and the table names a variable that is set for a leaf of a section
  -- other than mail, and the file and the defaults leave the section an object, the settings have at that
  -- leaf what the variable says. In place of a Boolean this is whether it is "true" or "1"; in place of
  -- a number the number that it is, and the old one only where it is none; and the variable's text
  -- otherwise.
  pub merge_env_wins :
      (name : Text) (file cfg fs : Fields)
      → is_row section leaf name env_keys ≡ true
      → codes "mail" ≢ section
      → is_empty (override_of e name) ≡ false
      → get section (deep_merge defaults file) ≡ some (obj fs)
      → merge e file ≡ some cfg
      → (w : Value) × HasLeaf section leaf (some w) cfg
        × Overrides e.number_of (get leaf fs) (override_of e name) w
  unfolding merge normalize
  merge_env_wins name file cfg fs row not_mail is_set at h =
      let (cfg₁, applied, rest) =
        and_then-some (apply_env e env_keys (deep_merge defaults file)) (normalize e) cfg h in
      (
        coerce e.number_of (get leaf fs) (override_of e name),
        normalize_mail-HasLeaf _ cfg₁ cfg (get (codes "mail") cfg₁) not_mail
            (apply_env_wins name env_keys (get leaf fs) (deep_merge defaults file) cfg₁ row is_set
              (fs, at, refl) applied)
            rest,
        coerce-Overrides e.number_of (get leaf fs) (override_of e name),
      )
