-- ===== src/Session/Marked.antt =====
-- A concrete reading and writing of slots and turns, in place of `json` in the tests of
-- assistant/turn/session_storage.py: a text's characters stand behind an apostrophe each, and a
-- semicolon ends it.
use Prim.Native.Char.{Char, code}
use Prim.Native.String.{char_at}
use technical_knowledge_assi.Prelude.{
  ◌≡◌, refl, ap, ◌∙◌, String, false, Option, none, some, List, [], ◌∷◌, map, nat_beq, if◌then◌else◌,
  ◌==◌, string_eq, Bool-cases, inl, inr, chars, eq_of_==, arith,
}
use technical_knowledge_assi.Session.Persisted.{Json}
use technical_knowledge_assi.Session.Recovered.{IsJson, as_list}
use technical_knowledge_assi.Session.{Exchange}

unfoldable write_text : String → String → String
write_text String.[] rest = String.◌∷◌ (char_at ";" 0) rest
write_text (String.◌∷◌ c s) rest = String.◌∷◌ (char_at "'" 0) (String.◌∷◌ c (write_text s rest))

abbrev put_first : Char → List String → List String
put_first c [] = []
put_first c (t ∷ texts) = String.◌∷◌ c t ∷ texts

unfoldable read_texts : String → List String
read_texts String.[] = []
read_texts (String.◌∷◌ a String.[]) = "" ∷ []
read_texts (String.◌∷◌ a (String.◌∷◌ c s)) =
    if nat_beq (code a) b';' then "" ∷ read_texts (String.◌∷◌ c s) else put_first c (read_texts s)

read-write_text : (s rest : String) → read_texts (write_text s rest) ≡ s ∷ read_texts rest
unfolding read_texts write_text
read-write_text String.[] String.[] = refl
read-write_text String.[] (String.◌∷◌ c s) = refl
read-write_text (String.◌∷◌ c s) rest = ap (put_first c) (read-write_text s rest)

unfoldable write_pairs : List (String × String) → String
unfolding write_text
write_pairs [] = ""
write_pairs ((k, v) ∷ d) = write_text k (write_text v (write_pairs d))

unfoldable pair_up : List String → Option (List (String × String))
pair_up [] = some []
pair_up (k ∷ []) = none
pair_up (k ∷ v ∷ texts) = elim (pair_up texts) [ none ↦ none | some d ↦ some ((k, v) ∷ d) ]

unfoldable pub dump : List (String × String) → String
unfolding write_pairs
dump d = String.◌∷◌ (char_at "[" 0) (write_pairs d)

unfoldable pub load_pairs : String → Option (List (String × String))
unfolding pair_up read_texts
load_pairs String.[] = none
load_pairs (String.◌∷◌ c s) = pair_up (read_texts s)

pairs_back : (d : List (String × String)) → pair_up (read_texts (write_pairs d)) ≡ some d
unfolding write_pairs pair_up read_texts
pairs_back [] = refl
pairs_back ((k, v) ∷ d) =
    ap pair_up (
      read-write_text k (write_text v (write_pairs d))
      ∙ ap (λ t. k ∷ t) (read-write_text v (write_pairs d)))
    ∙ rw (pairs_back d, pair_up)

unfoldable write_texts : List String → String
unfolding write_text
write_texts [] = ""
write_texts (t ∷ texts) = write_text t (write_texts texts)

texts_back : (texts : List String) → read_texts (write_texts texts) ≡ texts
unfolding write_texts read_texts
texts_back [] = refl
texts_back (t ∷ texts) = read-write_text t (write_texts texts) ∙ ap (λ l. t ∷ l) (texts_back texts)

-- The lists as one text each.
unfoldable pub dump_lists : List Exchange → String
unfolding write_texts as_list
dump_lists l = String.◌∷◌ (char_at "[" 0) (write_texts (map (λ e. write_texts (as_list e)) l))

unfoldable pub load_lists : String → Option (List (List String))
unfolding read_texts
load_lists String.[] = none
load_lists (String.◌∷◌ c s) = some (map read_texts (read_texts s))

lists_back :
    (l : List Exchange) → map read_texts (map (λ e. write_texts (as_list e)) l) ≡ map as_list l
lists_back [] = refl
lists_back (e ∷ l) = rw (texts_back (as_list e), lists_back l)

nonempty : (c : Char) (s : String) → (String.◌∷◌ c s == "") ≡ false
nonempty c s = elim (Bool-cases (String.◌∷◌ c s == "")) [
  | inl e ↦
      let empty : chars (String.◌∷◌ c s) ≡ chars "" =
        ap chars (eq_of_== {a = String.◌∷◌ c s} {b = ""} e) in
      absurd (omega (arith, empty))
  | inr e ↦ e
]

abbrev pub marked : Json
marked = record {
  dump_slots = dump;
  load_slots = load_pairs;
  dump_turns = dump_lists;
  load_turns = load_lists;
}

pub marked-IsJson : IsJson marked
unfolding dump load_pairs dump_lists load_lists
marked-IsJson = record {
  slots_back = λ d. pairs_back d;
  slots_some = λ d. nonempty _ _;
  turns_back = λ l.
      ap (λ (t : List String). some (map read_texts t))
        (texts_back (map (λ e. write_texts (as_list e)) l))
      ∙ ap some (lists_back l);
  turns_some = λ l. nonempty _ _;
}
