-- ===== src/Retrieval/Opening.antt =====
-- The retriever before it asks the store (assistant/retrieval/retrieve.py): `Retriever._verify`, which
-- refuses an index that another model or another cutting of the text has built, and `Retriever.expand`,
-- which adds synonyms to the text that is embedded.
use Prim.Native.String.{◌++◌ as joined}
use technical_knowledge_assi.Prelude.{
  String, ℕ, true, ◌&&◌, not, Option, none, some, List, [], ◌∷◌, ◌++◌, keep, unique, lower, strip,
  contains, prefix, if◌then◌else◌, ◌==◌, string_eq, nat_eq, ◌≡◌, ◌⊎◌, inl, inr, All, All-append,
  All-keep, Bool-cases, eq_of_==, arith,
}
use technical_knowledge_assi.Prelude.Dict.{Dict}
use technical_knowledge_assi.Router.Policy.{join}

-- What a snapshot says of the way it was built.
pub record Build : Type 0 where
  pub embedding_model : String
  pub embedding_dimensions : ℕ
  pub chunking_version : String

-- `IndexMismatch`, by the test that raises it
pub data IndexMismatch : Type 0 where
  no_active_index : IndexMismatch
  built_by : String → IndexMismatch
  built_with_dimensions : ℕ → IndexMismatch
  chunking_changed : IndexMismatch

-- `_verify`, for an engine that is configured as `engine`: the snapshot it keeps, or what it raises.
unfoldable pub verify : Build → Option Build → IndexMismatch ⊎ Build
verify engine none = inl no_active_index
verify engine (some snapshot) =
    if not (snapshot.embedding_model == engine.embedding_model)
    then inl (built_by snapshot.embedding_model)
    else if not (snapshot.embedding_dimensions == engine.embedding_dimensions)
    then inl (built_with_dimensions snapshot.embedding_dimensions)
    else if not (snapshot.chunking_version == engine.chunking_version)
    then inl chunking_changed
    else inr snapshot

-- The terms of the phrases that stand in the question, without those that stand there themselves.
unfoldable pub extra_terms : String → Dict String (List String) → List String
unfolding contains prefix keep
extra_terms lowered [] = []
extra_terms lowered ((phrase, terms) ∷ synonyms) =
    let rest = extra_terms lowered synonyms in
    if not (prefix 1 phrase == "_") && contains phrase lowered
    then keep (λ term. not (contains term lowered)) terms ++ rest
    else rest

-- `expand`
unfoldable pub expand : Dict String (List String) → String → String
unfolding extra_terms lower strip join unique
expand synonyms question = elim (extra_terms (lower question) synonyms) [
  | [] ↦ question
  | extra ∷ more ↦ strip (join (question ∷ unique (extra ∷ more)))
]

-- `as_query(self.expand(question))`, the text that is embedded; `query_instruction` is QUERY_INSTRUCTION.
unfoldable pub embedded_text : String → Dict String (List String) → String → String
unfolding expand
embedded_text query_instruction synonyms question =
    joined query_instruction (expand synonyms question)

-- No term is added that the question has already.
pub extra_terms-IsNew :
    (lowered : String) (synonyms : Dict String (List String))
    → All (λ term. not (contains term lowered) ≡ true) (extra_terms lowered synonyms)
unfolding extra_terms
extra_terms-IsNew lowered [] = tt
extra_terms-IsNew lowered ((phrase, terms) ∷ synonyms) =
    elim (Bool-cases (not (prefix 1 phrase == "_") && contains phrase lowered)) [
      | inl e ↦ rw e (
          All-append _ _ _ (All-keep (λ term. not (contains term lowered)) terms)
            (extra_terms-IsNew lowered synonyms))
      | inr e ↦ rw e (extra_terms-IsNew lowered synonyms)
    ]

-- An index that is accepted was built with the engine's model, dimensions and chunking.
pub verify-IsExact :
    (engine snapshot : Build)
    → verify engine (some snapshot) ≡ inr snapshot
    → (snapshot.embedding_model ≡ engine.embedding_model)
      × (snapshot.embedding_dimensions ≡ engine.embedding_dimensions)
      × (snapshot.chunking_version ≡ engine.chunking_version)
unfolding verify
verify-IsExact engine snapshot h =
    elim (Bool-cases (snapshot.embedding_model == engine.embedding_model)) [
      | inr e ↦ ground arith
      | inl e ↦ elim (Bool-cases (snapshot.embedding_dimensions == engine.embedding_dimensions)) [
        | inr f ↦ ground arith
        | inl f ↦ elim (Bool-cases (snapshot.chunking_version == engine.chunking_version)) [
          | inr g ↦ ground arith
          | inl g ↦ (eq_of_== e, eq_of_== f, eq_of_== g)
        ]
      ]
    ]
