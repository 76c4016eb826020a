-- ===== src/Packet/Tracker/Shared.antt =====
-- Trackers that share one memory store. A load and an append each hold the store's lock, so that
-- between the load of a command and its append other trackers may append.
use work_tracker.Prelude.{◌≡◌, ◌∙◌, ap, sym, List, [], ◌++◌}
use work_tracker.Prelude.Result.{ok}
use work_tracker.Prelude.Exec
use work_tracker.Packet.Store.{EventRecord, MemoryEventStore, memory}
use work_tracker.Packet.World.{World, Environment}
use work_tracker.Packet.Refresh.{prepare_locked}
use work_tracker.Packet.Refresh.Synced.{prepare_locked-ok}
use work_tracker.Packet.Batch.{append_locked}
use work_tracker.Packet.Tracker.Commands.{Command, touches, plan, plan-IsPlan}
use work_tracker.Packet.Tracker.Sound.{IsSound, Extends, HasRoom}
use work_tracker.Packet.Tracker.Growth.{planned-Extends}
use mathlib.Core.List.{append-nil, append_assoc}

-- The rest of a command, after `prepareLocked`.
abbrev pub complete : Environment → Command → World MemoryEventStore → World MemoryEventStore
complete env c w = (Exec.◌>>=◌ (plan env c) (λ es. append_locked memory es) w).1

-- What trackers do to the store that they share. One more command ends at the store `u`: its tracker,
-- with any cache, had prepared the command's packets when the store was `t`, and others have made it
-- `u` since. (A command that does not get that far leaves the store as it is.)
pub data Run : MemoryEventStore → MemoryEventStore → Type 0 where
  start : {s : MemoryEventStore} → Run s s
  end_command :
      {s t u : MemoryEventStore} (env : Environment) (c : Command) (w v : World MemoryEventStore)
      → Run s t
      → Run t u
      → HasRoom u
      → w.store ≡ t
      → prepare_locked memory (touches c) w ≡ (ok tt, v)
      → Run s (complete env c (record v { store = u })).store

-- A sound store that has the old log and more.
pub record Grows (s u : MemoryEventStore) : Type 0 where
  pub records : List EventRecord
  pub log : u.records ≡ s.records ++ records
  pub sound : IsSound u

Grows-Extends : {s t u : MemoryEventStore} → Grows s t → Extends t u → Grows s u
Grows-Extends {s} g e = record {
  records = g.records ++ e.records;
  log = e.log ∙ ap (λ rs. rs ++ e.records) g.log ∙ append_assoc s.records g.records e.records;
  sound = e.sound;
}

Grows-trans : {s t u : MemoryEventStore} → Grows s t → Grows t u → Grows s u
Grows-trans {s} g e = record {
  records = g.records ++ e.records;
  log = e.log ∙ ap (λ rs. rs ++ e.records) g.log ∙ append_assoc s.records g.records e.records;
  sound = e.sound;
}

complete-Extends :
    {t u : MemoryEventStore} (env : Environment) (c : Command) (w v : World MemoryEventStore)
    → IsSound t
    → Grows t u
    → HasRoom u
    → w.store ≡ t
    → prepare_locked memory (touches c) w ≡ (ok tt, v)
    → Extends u (complete env c (record v { store = u })).store
complete-Extends {t} {u} env c w v sound g room at_t prepared =
    let f = prepare_locked-ok (touches c) w (rw at_t sound.valid) prepared in
    planned-Extends (touches c) (plan env c) (plan-IsPlan env c) t g.records
      (record v { store = u }) room
      (record {
        earlier = sound.valid;
        later = g.log;
        synced = λ p k. rw at_t at (f.synced p k);
        sound = g.sound;
      })

-- From a sound store, however the commands of any trackers interleave, whatever each has cached, the
-- log only grows, it stays well formed, and the domain rules accept every stream of it.
pub Run-Grows : {s u : MemoryEventStore} → Run s u → IsSound s → Grows s u
Run-Grows {s} Run.start sound = record {
  records = [];
  log = sym (append-nil s.records);
  sound = sound;
}
Run-Grows (Run.end_command env c w v r later room at_t prepared) sound =
    let before = Run-Grows r sound in
    let between = Run-Grows later before.sound in
    Grows-Extends (Grows-trans before between)
      (complete-Extends env c w v before.sound between room at_t prepared)
