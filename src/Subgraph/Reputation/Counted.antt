-- ===== src/Subgraph/Reputation/Counted.antt =====
-- The counts of workspaces and of reputation registries under the three handlers of
-- packages/subgraph-arc/src/identity/reputation-registry.ts.
use bufi.Base.{ℕ, ◌≡◌, refl, Bool, Option, none, some, List, if◌then◌else◌, Option-cases, inl, inr}
use bufi.Base.Int.{ℤ, pos, ◌+ℤ◌}
use bufi.Subgraph.Table.{Bytes, load, save}
use bufi.Subgraph.Schema.{Agent, Engagement, Feedback, ReputationRegistry, Timestamp, Store}
use bufi.Subgraph.Access.{load_account}
use bufi.Subgraph.Runtime.{get_or_create_account}
use bufi.Subgraph.Reputation.Rating.{save_rated}
use bufi.Subgraph.Reputation.Revocation.{save_unrated}
use bufi.Subgraph.Reputation.Counts.{
  save_rating, load_rating, HasOwner, IsCount, IsCount-save, read_of, size_of,
}

-- What a rating adds to each count.
abbrev pub one : Feedback → ℕ
one f = 1

abbrev pub active : Feedback → ℕ
active f = if f.is_revoked then 0 else 1

abbrev pub active_verified : Feedback → ℕ
active_verified f = if f.is_revoked then 0 else if f.verified then 1 else 0

abbrev pub agent_of : Feedback → Bytes
agent_of f = f.agent

abbrev pub registry_of : Feedback → Bytes
registry_of f = f.registry

abbrev pub AgentCount : (Feedback → ℕ) → (Agent → ℤ) → List Agent → List Feedback → Type 0
AgentCount size read = IsCount agent_of size (λ a. a.id) read

abbrev pub RegistryCount :
    (Feedback → ℕ) → (ReputationRegistry → ℤ) → List ReputationRegistry → List Feedback → Type 0
RegistryCount size read = IsCount registry_of size (λ r. r.id) read

pub record IsCountedIn (agents : List Agent) (registries : List ReputationRegistry)
    (feedbacks : List Feedback) : Type 0 where
  pub ratings : AgentCount one (λ a. pos a.feedback_count) agents feedbacks
  pub active_ratings : AgentCount active (λ a. a.active_feedback_count) agents feedbacks
  pub verified_ratings :
      AgentCount active_verified (λ a. a.verified_feedback_count) agents feedbacks
  pub responses : AgentCount (λ f. f.response_count) (λ a. pos a.response_count) agents feedbacks
  pub registered : RegistryCount one (λ r. pos r.feedback_count) registries feedbacks
  pub registered_active : RegistryCount active (λ r. r.active_feedback_count) registries feedbacks
  pub registered_responses :
      RegistryCount (λ f. f.response_count) (λ r. pos r.response_count) registries feedbacks

abbrev pub IsCounted : Store → Type 0
IsCounted s = IsCountedIn s.agents s.reputation_registries s.feedbacks

-- The parts of the store that the counts read.
abbrev pub IsSame : Store → Store → Type 0
IsSame s t =
    (t.feedbacks ≡ s.feedbacks)
    × (t.agents ≡ s.agents)
    × (t.reputation_registries ≡ s.reputation_registries)

pub save_rated-IsSame :
    (e : Option Engagement) (verified : Bool) (at : Timestamp) (s : Store)
    → IsSame s (save_rated e verified at s)
unfolding save_rated
save_rated-IsSame none verified at s = (refl, refl, refl)
save_rated-IsSame (some e) verified at s = (refl, refl, refl)

pub save_unrated-IsSame :
    (e : Option Engagement) (verified : Bool) (at : Timestamp) (s : Store)
    → IsSame s (save_unrated e verified at s)
unfolding save_unrated
save_unrated-IsSame none verified at s = (refl, refl, refl)
save_unrated-IsSame (some e) verified at s = (refl, refl, refl)

pub get_or_create_account-IsSame : (a : Bytes) (s : Store) → IsSame s (get_or_create_account a s).1
unfolding get_or_create_account
get_or_create_account-IsSame a s = elim (Option-cases (load_account a s)) [
  | inl e ↦ rw (e, get_or_create_account) (refl, refl, refl)
  | inr e ↦ rw (e.1, get_or_create_account) (refl, refl, refl)
]

-- How a count moves from an entity to its next state when a rating is saved.
abbrev pub HasMoved :
    {V : Type 0} → (Feedback → ℕ) → (V → ℤ) → Option Feedback → Feedback → Option V → V → Type 0
HasMoved size read old f before after =
    read after +ℤ pos (size_of size old) ≡ read_of read before +ℤ pos (size f)

pub record AgentMoves (old : Option Feedback) (f : Feedback) (before : Option Agent) (after : Agent)
    : Type 0 where
  pub ratings : HasMoved one (λ a. pos a.feedback_count) old f before after
  pub active_ratings : HasMoved active (λ a. a.active_feedback_count) old f before after
  pub verified_ratings :
      HasMoved active_verified (λ a. a.verified_feedback_count) old f before after
  pub responses : HasMoved (λ f. f.response_count) (λ a. pos a.response_count) old f before after

pub record RegistryMoves (old : Option Feedback) (f : Feedback) (before : Option ReputationRegistry)
    (after : ReputationRegistry) : Type 0 where
  pub registered : HasMoved one (λ r. pos r.feedback_count) old f before after
  pub registered_active : HasMoved active (λ r. r.active_feedback_count) old f before after
  pub registered_responses :
      HasMoved (λ f. f.response_count) (λ r. pos r.response_count) old f before after

pub IsCountedIn-save :
    (a : Agent) (r : ReputationRegistry) (f : Feedback) (agents : List Agent)
    (registries : List ReputationRegistry) (fs : List Feedback)
    → a.id ≡ f.agent
    → r.id ≡ f.registry
    → HasOwner agent_of f.agent (load_rating f.id fs)
    → HasOwner registry_of f.registry (load_rating f.id fs)
    → AgentMoves (load_rating f.id fs) f (load (λ a. a.id) f.agent agents) a
    → RegistryMoves (load_rating f.id fs) f (load (λ r. r.id) f.registry registries) r
    → IsCountedIn agents registries fs
    → IsCountedIn (save (λ a. a.id) a agents) (save (λ r. r.id) r registries) (save_rating f fs)
IsCountedIn-save a r f agents registries fs of_agent of_registry own own_registry am rm counted =
    record {
      ratings =
          IsCount-save agent_of one (λ a. a.id) (λ a. pos a.feedback_count) a f agents fs of_agent
            own am.ratings counted.ratings;
      active_ratings =
          IsCount-save agent_of active (λ a. a.id) (λ a. a.active_feedback_count) a f agents fs
            of_agent own am.active_ratings counted.active_ratings;
      verified_ratings =
          IsCount-save agent_of active_verified (λ a. a.id) (λ a. a.verified_feedback_count) a f
            agents fs of_agent own am.verified_ratings counted.verified_ratings;
      responses =
          IsCount-save agent_of (λ f. f.response_count) (λ a. a.id) (λ a. pos a.response_count) a f
            agents fs of_agent own am.responses counted.responses;
      registered =
          IsCount-save registry_of one (λ r. r.id) (λ r. pos r.feedback_count) r f registries fs
            of_registry own_registry rm.registered counted.registered;
      registered_active =
          IsCount-save registry_of active (λ r. r.id) (λ r. r.active_feedback_count) r f registries
            fs of_registry own_registry rm.registered_active counted.registered_active;
      registered_responses =
          IsCount-save registry_of (λ f. f.response_count) (λ r. r.id) (λ r. pos r.response_count) r
            f registries fs of_registry own_registry rm.registered_responses
            counted.registered_responses;
    }
