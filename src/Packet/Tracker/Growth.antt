-- ===== src/Packet/Tracker/Growth.antt =====
-- A command of the form prepare, plan, append, run on a store that other trackers append to.
use work_tracker.Prelude.{◌≡◌, refl, ◌∙◌, ap, sym, subst, List, [], arith}
use work_tracker.Prelude.Result.{ok, err}
use work_tracker.Prelude.Exec.{◌>>=◌, continue}
use work_tracker.Packet.Types.{PacketId, Event, Fallible}
use work_tracker.Packet.Store.{EventRecord, MemoryEventStore, memory}
use work_tracker.Packet.World.{World, Method}
use work_tracker.Packet.Refresh.{prepare_locked}
use work_tracker.Packet.Refresh.Synced.{prepare_locked-ok, store-prepare_locked}
use work_tracker.Packet.Batch.{append_locked}
use work_tracker.Packet.Batch.Appended.{append_locked-Ended}
use work_tracker.Packet.Tracker.{run_plan}
use work_tracker.Packet.Tracker.Plans.{Post, IsPlanned, IsPlan}
use mathlib.Core.List.{append-nil}
use work_tracker.Packet.Tracker.Sound.{
  IsSound, Extends, Extends-refl, HasRoom, IsPrepared, Ended-Extends,
}

module _ (ids : List PacketId) (plan : Method MemoryEventStore (List Event))
    (k : IsPlan ids plan) where
  -- The rest of a command, from the plan on, run on a store that may have grown since the packets
  -- were prepared.
  pub planned-Extends :
      (s : MemoryEventStore) (more : List EventRecord) (w : World MemoryEventStore)
      → HasRoom w.store
      → IsPrepared ids s more w
      → Extends w.store ((plan >>= λ es. append_locked memory es) w).1.store
  planned-Extends s more w room h = after (plan w) (k.quiet w) (k.planned w)
    where
      after :
          (r : Fallible (List Event) × World MemoryEventStore)
          → (r.1.tracker ≡ w.tracker) × (r.1.store ≡ w.store)
          → Post (IsPlanned ids) r.0
          → Extends w.store (continue r.0 (λ es. append_locked memory es) r.1).1.store
      after (err e, v) quiet planned = rw quiet.1 (Extends-refl h.sound)
      after (ok es, v) quiet planned =
          let same = quiet.1 in
          let prepared : IsPrepared ids s more v = record {
            earlier = h.earlier;
            later = rw same h.later;
            synced = λ p c. rw quiet.0 (h.synced p c);
            sound = rw same h.sound;
          } in
          subst (λ (t : MemoryEventStore). Extends t (append_locked memory es v).1.store) same
            (Ended-Extends ids es s more v (append_locked memory es v) prepared planned (
              append_locked-Ended es v (rw same (omega (arith, planned.0)))
                (rw same h.sound.valid)))

  -- A whole command: whatever its tracker had cached, and whether or not it succeeds, it leaves a
  -- sound store that extends the one it found.
  pub run_plan-Extends :
      (w : World MemoryEventStore)
      → HasRoom w.store
      → IsSound w.store
      → Extends w.store (run_plan memory ids plan w).1.store
  unfolding run_plan
  run_plan-Extends w room sound = after (prepare_locked memory ids w) refl
    where
      after :
          (r : Fallible Unit × World MemoryEventStore)
          → prepare_locked memory ids w ≡ r
          → Extends w.store (continue r.0 (λ _. plan >>= λ es. append_locked memory es) r.1).1.store
      after (err e, v) h =
          rw (sym (ap (λ r. r.1.store) h) ∙ store-prepare_locked ids w) (Extends-refl sound)
      after (ok _, v) h =
          let f = prepare_locked-ok ids w sound.valid h in
          subst
            (λ (s : MemoryEventStore).
              Extends s ((plan >>= λ es. append_locked memory es) v).1.store)
            f.same_store
            (planned-Extends w.store [] v (rw f.same_store room) (record {
              earlier = sound.valid;
              later = rw f.same_store (sym (append-nil w.store.records));
              synced = f.synced;
              sound = rw f.same_store sound;
            }))
