-- ===== src/Types/Tags/Cleaning.antt =====
-- The characters of a replaced tag.
use Prim.Native.Char.{Char, code}
use fabric_es.Prelude.{
  ℕ, zero, suc, ◌-◌, String, ◌≡◌, ◌==◌, eq_iff, refl, Bool, true, false, not, ◌&&◌, Bool-cases, inl,
  inr, Option, none, some, List, [], ◌∷◌, all, eqb, leb, ltb, truthy, text_of, arith,
}
use fabric_es.Types.{Event}
use fabric_es.Types.Tags.{
  letter_at, put, replace, lower_char, to_lower_case, clean_tag, replace_event_tag, replace_tag,
}

-- A test of all characters.
abbrev pub every : (ℕ → Bool) → String → Bool
every p String.[] = true
every p (String.◌∷◌ c s) = p (code c) && every p s

abbrev pub not_one_of : List ℕ → ℕ → Bool
not_one_of cs d = all (λ c. not (eqb d c)) cs

-- No syntax of RediSearch and no capital letter.
abbrev pub is_plain : ℕ → Bool
is_plain d = not_one_of (b'-' ∷ b':' ∷ b'+' ∷ b'=' ∷ []) d && not (leb b'A' d && leb d b'Z')

abbrev pub is_clean : Option String → Bool
is_clean none = true
is_clean (some s) = every is_plain s

abbrev Replaced : (ℕ → Bool) → Option Char → Type 0
Replaced p none = Unit
Replaced p (some c) = p (code c) ≡ true

put-every :
    (p : ℕ → Bool) (r : Option Char) (s : String)
    → Replaced p r
    → every p s ≡ true
    → every p (put r s) ≡ true
put-every p none s h e = e
put-every p (some c) s h e = rw (h, e) refl

replace-every :
    (p q : ℕ → Bool) (c : ℕ) (r : Option Char) (s : String)
    → ((d : ℕ) → q d ≡ true → eqb d c ≡ false → p d ≡ true)
    → Replaced p r
    → every q s ≡ true
    → every p (replace c r s) ≡ true
unfolding replace
replace-every p q c r String.[] k h e = refl
replace-every p q c r (String.◌∷◌ d s) k h e =
    let rest : every p (replace c r s) ≡ true = replace-every p q c r s k h (ground arith) in
    elim (Bool-cases (eqb (code d) c)) [
      | inl y ↦ rw y (put-every p r (replace c r s) h rest)
      | inr n ↦
          let kept : p (code d) ≡ true = k (code d) (ground arith) n in rw (n, kept, rest) refl
    ]

abbrev size : String → ℕ
size String.[] = 0
size (String.◌∷◌ c s) = suc (size s)

letter_at-every :
    (p : ℕ → Bool) (n : ℕ) (s : String) (d : Char)
    → ltb n (size s) ≡ true
    → every p s ≡ true
    → p (code (letter_at n s d)) ≡ true
letter_at-every p n String.[] d h e = absurd (ground arith)
letter_at-every p zero (String.◌∷◌ c s) d h e = ground arith
letter_at-every p (suc n) (String.◌∷◌ c s) d h e =
    letter_at-every p n s d (ground arith) (ground arith)

lower_char-is_plain :
    (c : Char)
    → not_one_of (b'=' ∷ b'+' ∷ b':' ∷ b'-' ∷ []) (code c) ≡ true
    → is_plain (code (lower_char c)) ≡ true
lower_char-is_plain c h = elim (Bool-cases (leb b'A' (code c) && leb (code c) b'Z')) [
  | inl y ↦
      rw y (
        letter_at-every is_plain (code c - b'A') "abcdefghijklmnopqrstuvwxyz" c (ground arith) refl)
  | inr n ↦ rw n (ground arith)
]

to_lower_case-every :
    (s : String)
    → every (not_one_of (b'=' ∷ b'+' ∷ b':' ∷ b'-' ∷ [])) s ≡ true
    → every is_plain (to_lower_case s) ≡ true
unfolding to_lower_case
to_lower_case-every String.[] h = refl
to_lower_case-every (String.◌∷◌ c s) h =
    let head : is_plain (code (lower_char c)) ≡ true = lower_char-is_plain c (ground arith) in
    let tail : every is_plain (to_lower_case s) ≡ true = to_lower_case-every s (ground arith) in
    rw (head, tail) refl

every-true : (s : String) → every (λ d. true) s ≡ true
every-true String.[] = refl
every-true (String.◌∷◌ c s) = every-true s

clean_tag-every : (s : String) → every is_plain (clean_tag s) ≡ true
unfolding clean_tag
clean_tag-every s =
    let dashed = replace b'-' (some "_") s in
    let no_colons = replace b':' none dashed in
    let no_pluses = replace b'+' (some "_") no_colons in
    let no_dash : every (not_one_of (b'-' ∷ [])) dashed ≡ true =
      replace-every (not_one_of (b'-' ∷ [])) (λ d. true) b'-' (some "_") s (λ d h e. ground arith)
        refl (every-true s) in
    let no_colon : every (not_one_of (b':' ∷ b'-' ∷ [])) no_colons ≡ true =
      replace-every (not_one_of (b':' ∷ b'-' ∷ [])) (not_one_of (b'-' ∷ [])) b':' none dashed
        (λ d h e. ground arith) tt no_dash in
    let no_plus : every (not_one_of (b'+' ∷ b':' ∷ b'-' ∷ [])) no_pluses ≡ true =
      replace-every (not_one_of (b'+' ∷ b':' ∷ b'-' ∷ [])) (not_one_of (b':' ∷ b'-' ∷ [])) b'+'
        (some "_") no_colons (λ d h e. ground arith) refl no_colon in
    to_lower_case-every (replace b'=' none no_pluses) (
      replace-every (not_one_of (b'=' ∷ b'+' ∷ b':' ∷ b'-' ∷ []))
        (not_one_of (b'+' ∷ b':' ∷ b'-' ∷ [])) b'=' none no_pluses (λ d h e. ground arith) tt
        no_plus)

untagged : (tag : Option String) → truthy tag ≡ false → is_clean tag ≡ true
untagged none h = refl
untagged (some s) h = let empty : (s == "") ≡ true = ground arith in rw ((eq_iff s "").0 empty) refl

module _ {P : Type 0} where
  abbrev pub tag_of : Event P → Option String
  tag_of e = e.payload.tag

  replace_event_tag-is_clean : (e : Event P) → is_clean (tag_of (replace_event_tag e)) ≡ true
  unfolding replace_event_tag
  replace_event_tag-is_clean e = elim (Bool-cases (truthy e.payload.tag)) [
    | inl y ↦ rw y (clean_tag-every (text_of e.payload.tag))
    | inr n ↦ rw n (untagged e.payload.tag n)
  ]

  -- After replaceTag, no tag of an event has a dash, a colon, a plus, an equals sign or a capital
  -- letter.
  pub replace_tag-is_clean :
      (es : List (Event P)) → all (λ e. is_clean (tag_of e)) (replace_tag es) ≡ true
  unfolding replace_tag
  replace_tag-is_clean [] = refl
  replace_tag-is_clean (e ∷ es) = rw (replace_event_tag-is_clean e, replace_tag-is_clean es) refl
