-- ===== src/Subgraph/Commerce/Balance.antt =====
-- Every move keeps an escrow's counts in step with its jobs.
-- that name it, and every move keeps it so.
use bufi.Base.{ℕ, ◌+◌, ◌≡◌, refl, ap, sym, ◌∙◌, true, false, some, arith}
use bufi.Subgraph.Table.{Bytes, load-key}
use bufi.Subgraph.Schema.{AgenticCommerce, Job, Timestamp, Store}
use bufi.Subgraph.Access.{load_job, save_job, load_agentic_commerce, save_agentic_commerce}
use bufi.Subgraph.Commerce.Settlement.{settle_commerce, refund_commerce}
use bufi.Subgraph.Commerce.Moves.{
  Move, kept, both, revised, paid, returned, sighted, retouched, entered,
}
use bufi.Subgraph.Commerce.Ledger.{one, settled_one, settled_payment, IsBalanced}
use bufi.Subgraph.Commerce.Growth.{
  grown-IsBalanced, framed-IsBalanced, escrow-of, grown_entity, grown_jobs, revised-IsBalanced,
  retouched-IsBalanced, entered-IsBalanced,
}

found-id :
    (s : Store) (id : Bytes) (c : AgenticCommerce)
    → load_agentic_commerce id s ≡ some c
    → (c.id ≡ id) × (load_agentic_commerce c.id s ≡ some c)
found-id s id c h =
    let same = load-key (λ c. c.id) id c s.agentic_commerces h in
    (same, ap (λ i. load_agentic_commerce i s) same ∙ h)

settle_commerce_found :
    (job : Job) (amount : ℕ) (at : Timestamp) (s : Store) (c : AgenticCommerce)
    → load_agentic_commerce job.agentic_commerce s ≡ some c
    → settle_commerce job amount at s
      ≡ save_agentic_commerce
          (record c {
            settled_job_count = c.settled_job_count + 1;
            settled_volume = c.settled_volume + amount;
            updated_at = at;
          })
          s
unfolding settle_commerce
settle_commerce_found job amount at s c h = rw (h, settle_commerce) refl

refund_commerce_found :
    (job : Job) (amount : ℕ) (at : Timestamp) (s : Store) (c : AgenticCommerce)
    → load_agentic_commerce job.agentic_commerce s ≡ some c
    → refund_commerce job amount at s
      ≡ save_agentic_commerce
          (record c { refunded_volume = c.refunded_volume + amount; updated_at = at })
          s
unfolding refund_commerce
refund_commerce_found job amount at s c h = rw (h, refund_commerce) refl

-- A settlement: the escrow of the job counts it once, with what the job was paid.
paid-IsBalanced :
    (s : Store) (old new : Job) (at : Timestamp)
    → load_job new.id s ≡ some old
    → new.agentic_commerce ≡ old.agentic_commerce
    → old.settled ≡ false
    → new.settled ≡ true
    → new.refunded_amount ≡ old.refunded_amount
    → IsBalanced s
    → IsBalanced (save_job new (settle_commerce new new.provider_payment at s))
paid-IsBalanced s old new at h same unsettled settled refunded balance =
    let escrow = escrow-of s new.id old balance h in
    let c = escrow.0 in
    let found : load_agentic_commerce new.agentic_commerce s ≡ some c =
      ap (λ i. load_agentic_commerce i s) same ∙ escrow.1 in
    let key = found-id s new.agentic_commerce c found in
    let amount = new.provider_payment in
    let counted = record c {
      settled_job_count = c.settled_job_count + 1;
      settled_volume = c.settled_volume + amount;
      updated_at = at;
    } in
    let entities = s.agentic_commerces in
    rw (settle_commerce_found new amount at s c found) (
      grown-IsBalanced s (save_job new (save_agentic_commerce counted s)) c.id 0 1 0 amount amount
        (omega arith) (grown_entity (λ c. c.job_count) c counted 0 entities key.1 (omega arith))
        (grown_entity (λ c. c.settled_job_count) c counted 1 entities key.1 refl)
        (grown_entity (λ c. c.refunded_volume) c counted 0 entities key.1 (omega arith))
        (grown_entity (λ c. c.settled_volume) c counted amount entities key.1 refl)
        (rw key.0 (grown_jobs one old new 0 s.jobs h same refl))
        (rw key.0 (grown_jobs settled_one old new 1 s.jobs h same (rw (settled, unsettled) refl)))
        (rw key.0 (grown_jobs (λ j. j.refunded_amount) old new 0 s.jobs h same (omega arith)))
        (rw key.0 (
          grown_jobs settled_payment old new amount s.jobs h same
            (rw (settled, unsettled) (omega arith))))
        balance)

returned-IsBalanced :
    (s : Store) (old new : Job) (amount : ℕ) (at : Timestamp)
    → load_job new.id s ≡ some old
    → new.agentic_commerce ≡ old.agentic_commerce
    → new.settled ≡ old.settled
    → new.refunded_amount ≡ old.refunded_amount + amount
    → new.provider_payment ≡ old.provider_payment
    → IsBalanced s
    → IsBalanced (refund_commerce new amount at (save_job new s))
returned-IsBalanced s old new amount at h same settled refunded payment balance =
    let escrow = escrow-of s new.id old balance h in
    let c = escrow.0 in
    let found : load_agentic_commerce new.agentic_commerce s ≡ some c =
      ap (λ i. load_agentic_commerce i s) same ∙ escrow.1 in
    let key = found-id s new.agentic_commerce c found in
    let counted = record c { refunded_volume = c.refunded_volume + amount; updated_at = at } in
    let entities = s.agentic_commerces in
    rw (refund_commerce_found new amount at (save_job new s) c found) (
      grown-IsBalanced s (save_agentic_commerce counted (save_job new s)) c.id 0 0 amount 0 0
        (omega arith) (grown_entity (λ c. c.job_count) c counted 0 entities key.1 (omega arith))
        (grown_entity (λ c. c.settled_job_count) c counted 0 entities key.1 (omega arith))
        (grown_entity (λ c. c.refunded_volume) c counted amount entities key.1 refl)
        (grown_entity (λ c. c.settled_volume) c counted 0 entities key.1 (omega arith))
        (rw key.0 (grown_jobs one old new 0 s.jobs h same refl))
        (rw key.0 (grown_jobs settled_one old new 0 s.jobs h same (rw settled (omega arith))))
        (rw key.0 (grown_jobs (λ j. j.refunded_amount) old new amount s.jobs h same refunded))
        (rw key.0 (
          grown_jobs settled_payment old new 0 s.jobs h same (rw (settled, payment) (omega arith))))
        balance)

pub Move-IsBalanced : (s t : Store) → Move s t → IsBalanced s → IsBalanced t
Move-IsBalanced s t (kept f) b = framed-IsBalanced s t f b
Move-IsBalanced s t (both {t = m} p q) b = Move-IsBalanced m t q (Move-IsBalanced s m p b)
Move-IsBalanced s t (revised old new h same settled refunded le right f) b =
    framed-IsBalanced _ t f (revised-IsBalanced s old new h same settled refunded le b)
Move-IsBalanced s t (paid old new at h same unsettled settled refunded positive f) b =
    framed-IsBalanced _ t f (paid-IsBalanced s old new at h same unsettled settled refunded b)
Move-IsBalanced s t (returned old new amount at h same settled refunded payment right f) b =
    framed-IsBalanced _ t f
      (returned-IsBalanced s old new amount at h same settled refunded payment b)
Move-IsBalanced s t (sighted c h zeros f) b = framed-IsBalanced _ t f (
    retouched-IsBalanced s c (rw h (sym (ap (λ p. p.0) zeros))) (rw h (sym (ap (λ p. p.1) zeros)))
      (rw h (sym (ap (λ p. p.2) zeros))) (rw h (sym (ap (λ p. p.3) zeros))) b)
Move-IsBalanced s t (retouched old new h same f) b = framed-IsBalanced _ t f (
    retouched-IsBalanced s new (rw h (sym (ap (λ p. p.0) same))) (rw h (sym (ap (λ p. p.1) same)))
      (rw h (sym (ap (λ p. p.2) same))) (rw h (sym (ap (λ p. p.3) same))) b)
Move-IsBalanced s t (entered job old new fresh found owner unsettled unrefunded opened counted f)
      b =
    framed-IsBalanced _ t f
      (entered-IsBalanced s job old new fresh found owner unsettled unrefunded counted b)
