-- ===== src/Types/Tags.antt =====
-- packages/fabric-cqrs/src/utils/replaceTag.ts: the tag of an event, without what RediSearch reads as
-- syntax. Tags are ASCII text: of other letters, JavaScript's toLowerCase changes more.
pub mod Cleaning
use Prim.Native.Char.{Char, code}
use fabric_es.Prelude.{
  ℕ, zero, suc, ◌-◌, ◌≡◌, refl, String, ◌&&◌, Option, none, some, List, map, eqb, leb, truthy,
  text_of, if◌then◌else◌,
}
use fabric_es.Types.{Event}

abbrev pub letter_at : ℕ → String → Char → Char
letter_at n String.[] d = d
letter_at zero (String.◌∷◌ c s) d = c
letter_at (suc n) (String.◌∷◌ c s) d = letter_at n s d

abbrev pub put : Option Char → String → String
put none s = s
put (some c) s = String.◌∷◌ c s

-- `s.replace(/c/g, r)`
unfoldable pub replace : ℕ → Option Char → String → String
replace c r String.[] = String.[]
replace c r (String.◌∷◌ d s) =
    let rest = replace c r s in if eqb (code d) c then put r rest else String.◌∷◌ d rest

abbrev pub lower_char : Char → Char
lower_char c =
    if leb b'A' (code c) && leb (code c) b'Z'
    then letter_at (code c - b'A') "abcdefghijklmnopqrstuvwxyz" c
    else c

-- `s.toLowerCase()`
unfoldable pub to_lower_case : String → String
to_lower_case String.[] = String.[]
to_lower_case (String.◌∷◌ c s) = String.◌∷◌ (lower_char c) (to_lower_case s)

unfoldable pub clean_tag : String → String
unfolding replace to_lower_case
clean_tag s =
    to_lower_case
      (replace b'=' none (replace b'+' (some "_") (replace b':' none (replace b'-' (some "_") s))))

module _ {P : Type 0} where
  unfoldable pub replace_event_tag : Event P → Event P
  unfolding clean_tag
  replace_event_tag e =
      if truthy e.payload.tag
      then record e {
        payload = record e.payload { tag = some (clean_tag (text_of e.payload.tag)) };
      }
      else e

  unfoldable pub replace_tag : List (Event P) → List (Event P)
  unfolding replace_event_tag
  replace_tag = map replace_event_tag

test : clean_tag "Ab-c:D+e=F" ≡ "ab_cd_ef"
unfolding clean_tag
test = refl
