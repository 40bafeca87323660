-- ===== src/Subgraph/Reputation/Ids.antt =====
-- What the ids of packages/subgraph-arc/src/identity/{feedback,registry}.ts tell: a rating found under
-- an event's id is of that event's registry and workspace.
use bufi.Base.{
  ℕ, ◌≡◌, refl, Bool, false, some, List, [], ◌∷◌, ◌++◌, any, ◌==◌, arith, Option-cases, inl, inr,
}
use bufi.Base.Texts.{Text, text}
use bufi.Subgraph.Table.{Bytes, load, save, load-key, load-save_cases}
use bufi.Subgraph.Schema.{Feedback, ReputationRegistry, Timestamp, Store}
use bufi.Subgraph.Access.{load_reputation_registry}
use bufi.Subgraph.Runtime.{Host}
use bufi.Subgraph.Reputation.{
  registry_entity_id, agent_entity_id, feedback_entity_id, get_or_create_reputation_registry,
}
use bufi.Subgraph.Reputation.Counts.{save_rating}

abbrev pub has_colon : Text → Bool
has_colon t = any (λ c. c == b':') t

-- Decimal and hexadecimal texts have no colon, and each is of one value.
pub record IsPrinting (host : Host) : Type 0 where
  pub decimal_no_colon : (n : ℕ) → has_colon (host.to_string n) ≡ false
  pub decimal_apart : (m n : ℕ) → host.to_string m ≡ host.to_string n → m ≡ n
  pub hexadecimal_no_colon : (a : Bytes) → has_colon (host.to_hex_string a) ≡ false
  pub hexadecimal_apart : (a b : Bytes) → host.to_hex_string a ≡ host.to_hex_string b → a ≡ b

-- A text is cut at its first colon in one way.
cut_apart :
    (a b c d : Text)
    → has_colon a ≡ false
    → has_colon b ≡ false
    → a ++ (text ":" ++ c) ≡ b ++ (text ":" ++ d)
    → (a ≡ b) × (c ≡ d)
cut_apart [] [] c d ha hb h = (refl, cc)
cut_apart [] (y ∷ ys) c d ha hb h = let clash : 58 ≡ y = cc h in absurd (ground arith)
cut_apart (x ∷ xs) [] c d ha hb h = let clash : x ≡ 58 = cc h in absurd (ground arith)
cut_apart (x ∷ xs) (y ∷ ys) c d ha hb h =
    let head : x ≡ y = cc h in
    let tail : xs ++ (text ":" ++ c) ≡ ys ++ (text ":" ++ d) = cc h in
    let (front, back) = cut_apart xs ys c d (ground arith) (ground arith) tail in
    (rw (head, front) refl, back)

module _ (host : Host) where
  -- The event that a rating is of.
  abbrev pub IsOfEvent : Feedback → Type 0
  IsOfEvent f =
      (address : Bytes) × (agent_id : ℕ) × (client : Bytes) × (feedback_index : ℕ) × ((f.id
          ≡ feedback_entity_id host host.context_chain_id address agent_id client feedback_index)
        × (f.registry ≡ registry_entity_id host host.context_chain_id address)
        × (f.agent
            ≡ agent_entity_id host host.context_chain_id host.context_identity_registry agent_id))

  abbrev pub HasIdsIn : List ReputationRegistry → List Feedback → Type 0
  HasIdsIn registries feedbacks =
      ((id : Bytes) (r : ReputationRegistry)
        → load (λ r. r.id) id registries ≡ some r
        → r.chain_id ≡ host.context_chain_id)
      × ((id : Bytes) (f : Feedback) → load (λ f. f.id) id feedbacks ≡ some f → IsOfEvent f)

  abbrev pub HasIds : Store → Type 0
  HasIds s = HasIdsIn s.reputation_registries s.feedbacks

  pub HasIdsIn-save :
      (r : ReputationRegistry) (f : Feedback) (registries : List ReputationRegistry)
      (fs : List Feedback)
      → r.chain_id ≡ host.context_chain_id
      → IsOfEvent f
      → HasIdsIn registries fs
      → HasIdsIn (save (λ r. r.id) r registries) (save_rating f fs)
  HasIdsIn-save r f registries fs on_chain of_event ids = (
    λ id q h. elim (load-save_cases (λ r. r.id) id r q registries h) [
      | inl e ↦ rw e on_chain
      | inr e ↦ ids.0 id q e
    ],
    λ id g h. elim (load-save_cases (λ f. f.id) id f g fs h) [
      | inl e ↦ rw e of_event
      | inr e ↦ ids.1 id g e
    ],
  )

  pub same_event :
      (address address' : Bytes) (n n' : ℕ) (c c' : Bytes) (i i' : ℕ)
      → IsPrinting host
      → feedback_entity_id host host.context_chain_id address n c i
        ≡ feedback_entity_id host host.context_chain_id address' n' c' i'
      → (address ≡ address') × (n ≡ n')
  unfolding feedback_entity_id
  same_event address address' n n' c c' i i' printing h =
      let client = λ (c : Bytes) (i : ℕ). host.to_hex_string c ++ (text ":" ++ host.to_string i) in
      let rated = λ (n : ℕ) (c : Bytes) (i : ℕ). host.to_string n ++ (text ":" ++ client c i) in
      let from = λ (a : Bytes) (n : ℕ) (c : Bytes) (i : ℕ).
        host.to_hex_string a ++ (text ":" ++ rated n c i) in
      let chain = printing.decimal_no_colon host.context_chain_id in
      let (on_chain, at_registry) =
        cut_apart (host.to_string host.context_chain_id) (host.to_string host.context_chain_id)
          (from address n c i) (from address' n' c' i') chain chain h in
      let (registry, for_agent) =
        cut_apart (host.to_hex_string address) (host.to_hex_string address') (rated n c i)
          (rated n' c' i') (printing.hexadecimal_no_colon address)
          (printing.hexadecimal_no_colon address') at_registry in
      let (agent, of_client) =
        cut_apart (host.to_string n) (host.to_string n') (client c i) (client c' i')
          (printing.decimal_no_colon n) (printing.decimal_no_colon n') for_agent in
      (printing.hexadecimal_apart address address' registry, printing.decimal_apart n n' agent)

  -- The registry that a handler starts with.
  pub get_or_create_reputation_registry-ids :
      (address : Bytes) (at : Timestamp) (s : Store)
      → HasIds s
      → ((get_or_create_reputation_registry host address at s).chain_id ≡ host.context_chain_id)
        × ((get_or_create_reputation_registry host address at s).id
            ≡ registry_entity_id host host.context_chain_id address)
  unfolding get_or_create_reputation_registry
  get_or_create_reputation_registry-ids address at s ids =
      let id = registry_entity_id host host.context_chain_id address in
      elim (Option-cases (load_reputation_registry id s)) [
        | inl e ↦ rw (e, get_or_create_reputation_registry) (refl, refl)
        | inr e ↦
            rw (e.1, get_or_create_reputation_registry)
              (ids.0 id e.0 e.1, load-key (λ r. r.id) id e.0 s.reputation_registries e.1)
      ]
