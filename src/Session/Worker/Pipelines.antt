-- ===== src/Session/Worker/Pipelines.antt =====
-- The three pipeline slots: the worker always finds one that neither the callback nor the session
-- uses, and rebuilding it touches no other.
use sonotide.Prelude.{
  ℕ, zero, suc, ◌<◌, ◌≡◌, ◌≢◌, sym, ap, ◌∙◌, ◌==◌, ==_iff, Bool-cases, if◌then◌else◌, Option, none,
  some, length, join, get_elem?-set_ne, get_elem?-set_self, arith, inl, inr,
}
use sonotide.Session.{EqualizerPort, SessionOf}
use sonotide.Session.Worker.{Command, slot_payload}
use sonotide.Session.Worker.Slots.{free_slot_from, free_slot, prepare_pipeline_slot, fresh_payload}

-- Slot `i` is one of three, and neither pointer names it.
pub record IsFree (published hazard : Option ℕ) (i : ℕ) : Type 0 where
  pub in_range : i < 3
  pub not_published : published ≢ some i
  pub not_hazard : hazard ≢ some i

-- What a scan of three slots finds.
free_slot_from-IsFree :
    (published hazard : Option ℕ)
    → (i : ℕ) × (free_slot_from 3 0 published hazard ≡ some i) × IsFree published hazard i
unfolding free_slot_from
free_slot_from-IsFree none none = (0, ground arith, ground arith)
free_slot_from-IsFree none (some zero) = (1, ground arith, ground arith)
free_slot_from-IsFree none (some (suc h)) = (0, ground arith, ground arith)
free_slot_from-IsFree (some zero) none = (1, ground arith, ground arith)
free_slot_from-IsFree (some zero) (some zero) = (1, ground arith, ground arith)
free_slot_from-IsFree (some zero) (some (suc zero)) = (2, ground arith, ground arith)
free_slot_from-IsFree (some zero) (some (suc (suc h))) = (1, ground arith, ground arith)
free_slot_from-IsFree (some (suc zero)) (some zero) = (2, ground arith, ground arith)
free_slot_from-IsFree (some (suc (suc p))) (some zero) = (1, ground arith, ground arith)
free_slot_from-IsFree (some (suc p)) none = (0, ground arith, ground arith)
free_slot_from-IsFree (some (suc p)) (some (suc h)) = (0, ground arith, ground arith)

module _ (port : EqualizerPort) where
  pub free_slot-IsFree :
      (s : SessionOf port)
      → length s.pipeline_slots ≡ 3
      → (i : ℕ) × (free_slot port s ≡ some i) × IsFree s.decoded_pipeline s.render_hazard i
  unfolding free_slot
  free_slot-IsFree s h =
      let (i, found, free) = free_slot_from-IsFree s.decoded_pipeline s.render_hazard in
      (i, ap (λ n. free_slot_from n 0 s.decoded_pipeline s.render_hazard) h ∙ found, free)

  -- With three slots the worker always finds one, so that `prepare_pipeline_slot` never runs out:
  -- the slot is neither published nor held by the callback, it then has a fresh payload, and every
  -- other slot, those two included, keeps its payload.
  pub prepare_pipeline_slot-fresh :
      (c : Command) (s : SessionOf port) (j : ℕ)
      → length s.pipeline_slots ≡ 3
      → let prepared = prepare_pipeline_slot port c s in
        (i : ℕ) × (prepared.1 ≡ some i)
        × IsFree s.decoded_pipeline s.render_hazard i
        × (slot_payload port prepared.0 j ≡ (
            if j == i
            then some (fresh_payload port c.format c.frame_count)
            else slot_payload port s j))
  unfolding prepare_pipeline_slot
  prepare_pipeline_slot-fresh c s j h =
      let (i, found, free) = free_slot-IsFree s h in
      let payload = some (fresh_payload port c.format c.frame_count) in
      let within : i < length s.pipeline_slots = ground (arith, free.in_range) in
      (
        i,
        simp found,
        free,
        elim (Bool-cases (j == i)) [
          | inl here ↦ simp found (
              rw here (
                rw ((==_iff j i).0 here)
                  (ap join (get_elem?-set_self s.pipeline_slots i payload within))))
          | inr there ↦ simp found (
              rw there (
                ap join
                  (get_elem?-set_ne s.pipeline_slots payload (λ e. cc ((==_iff j i).1 (sym e))))))
        ],
      )
