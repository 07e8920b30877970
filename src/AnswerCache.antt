-- ===== src/AnswerCache.antt =====
-- assistant/cache.py: the least-recently-used store of finished answers, and its key.
mod Tests
mod Lru
mod Separation
mod History
use technical_knowledge_assi.Prelude.{
  ℕ, suc, ◌+◌, String, Bool, true, false, Option, none, some, List, [], ◌∷◌, ltb, if◌then◌else◌,
  ◌==◌, string_eq, Eq, length, lower, strip, collapse, text_le, prefix, ◌||◌, ◌&&◌, sorted,
}
use technical_knowledge_assi.Prelude.Dict
use technical_knowledge_assi.Prelude.Dict.{Dict}

abbrev pub default_max_entries : ℕ
default_max_entries = 256

unfoldable pub normalise : String → String
unfolding lower strip collapse
normalise question = collapse (lower (strip question))

abbrev pub pair_le : String × String → String × String → Bool
pair_le (a, b) (c, d) = if a == c then text_le b d else text_le a c

-- The tuple that `key` returns.
pub record Key : Type 0 where
  pub question : String
  pub audiences : List String
  pub snapshot_id : String
  pub generation_model : String
  pub chunking_version : String
  pub carried : List (String × String)
  pub origins : List (String × String)
  pub history : String

-- `digest` is the SHA-256 of the text, in hexadecimal (hashlib). `origins` holds the values of the
-- origins, as `getattr(origin, "value", origin)` reads them.
module _ (digest : String → String) where
  unfoldable pub key :
      String
      → List String
      → String
      → String
      → String
      → Dict String String
      → Dict String String
      → String
      → Key
  unfolding normalise sorted prefix
  key question audiences snapshot_id generation_model chunking_version carried origins history =
      record {
        question = normalise question;
        audiences = sorted text_le audiences;
        snapshot_id = snapshot_id;
        generation_model = generation_model;
        chunking_version = chunking_version;
        carried = sorted pair_le carried;
        origins = sorted pair_le origins;
        history = if history == "" then "" else prefix 16 (digest history);
      }

pub record Cache {ℓ} (K V : Type ℓ) : Type ℓ where
  pub max_entries : ℕ
  pub entries : Dict K V
  pub hits : ℕ
  pub misses : ℕ

abbrev pub new_cache {ℓ} : {K V : Type ℓ} → ℕ → Cache K V
new_cache max_entries = record { max_entries = max_entries; entries = []; hits = 0; misses = 0 }

module _ {ℓ} {K V : Type ℓ} ⦃e : Eq K⦄ where
  unfoldable pub get : K → Cache K V → Option V × Cache K V
  unfolding Dict.lookup Dict.move_to_end
  get k c = elim (Dict.lookup k c.entries) [
    | some answer ↦
        (some answer, record c { entries = Dict.move_to_end k c.entries; hits = c.hits + 1 })
    | none ↦ (none, record c { misses = c.misses + 1 })
  ]

  unfoldable pub put : K → V → Cache K V → Cache K V
  unfolding Dict.insert Dict.move_to_end Dict.evict
  put k answer c = record c {
    entries = Dict.evict c.max_entries (Dict.move_to_end k (Dict.insert k answer c.entries));
  }

  unfoldable pub clear : Cache K V → Cache K V
  clear c = record c { entries = []; hits = 0; misses = 0 }
