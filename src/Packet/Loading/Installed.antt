-- ===== src/Packet/Loading/Installed.antt =====
-- What `refreshLocked` writes to the tracker: the loaded maps at every target, and nothing else.
use work_tracker.Prelude.{
  ◌≡◌, refl, ◌∙◌, Bool, true, Option, none, some, List, [], ◌∷◌, ◌==◌, arith, eq_iff, if◌then◌else◌,
}
use work_tracker.Prelude.Dict.{Dict, get, remove, get-put, get-remove}
use work_tracker.Prelude.NameSet.{contains}
use work_tracker.Packet.Types.{PacketId}
use work_tracker.Packet.World.{Tracker}
use work_tracker.Packet.Loading.{Loading, replace, install_targets, install}

get-replace {ℓ} :
    {V : Type ℓ} (id p : PacketId) (o : Option V) (m : Dict V)
    → get p (replace id o m) ≡ (if id == p then o else get p m)
unfolding replace
get-replace id p none m = get-remove id p m
get-replace id p (some v) m = ground (arith, get-put id p v (remove id m), get-remove id p m)

pub install_targets-streams :
    (ids : List PacketId) (loaded : Loading) (t : Tracker) (p : PacketId)
    → get p (install_targets true ids loaded t).streams
      ≡ (if contains p ids then get p loaded.streams else get p t.streams)
unfolding install_targets contains
install_targets-streams [] loaded t p = refl
install_targets-streams (id ∷ ids) loaded t p =
    let t' : Tracker = record t {
      streams = replace id (get id loaded.streams) t.streams;
      projection = replace id (get id loaded.rebuilt) t.projection;
    } in
    install_targets-streams ids loaded t' p
    ∙ ground (arith, eq_iff id p, get-replace id p (get id loaded.streams) t.streams)

pub install_targets-projection :
    (ids : List PacketId) (loaded : Loading) (t : Tracker) (p : PacketId)
    → get p (install_targets true ids loaded t).projection
      ≡ (if contains p ids then get p loaded.rebuilt else get p t.projection)
unfolding install_targets contains
install_targets-projection [] loaded t p = refl
install_targets-projection (id ∷ ids) loaded t p =
    let t' : Tracker = record t {
      streams = replace id (get id loaded.streams) t.streams;
      projection = replace id (get id loaded.rebuilt) t.projection;
    } in
    install_targets-projection ids loaded t' p
    ∙ ground (arith, eq_iff id p, get-replace id p (get id loaded.rebuilt) t.projection)

-- Whether a reload of these identifiers covers a packet: no identifiers mean every packet.
abbrev pub covers : List PacketId → PacketId → Bool
covers [] p = true
covers (id ∷ ids) p = contains p (id ∷ ids)

-- A covered packet's entries are those of the loaded maps.
pub install_covered :
    (ids : List PacketId) (loaded : Loading) (t : Tracker) (p : PacketId)
    → covers ids p ≡ true
    → (get p (install true ids loaded t).streams ≡ get p loaded.streams)
      × (get p (install true ids loaded t).projection ≡ get p loaded.rebuilt)
unfolding install
install_covered [] loaded t p c = (refl, refl)
install_covered (id ∷ ids) loaded t p c = (
  install_targets-streams (id ∷ ids) loaded t p ∙ rw c,
  install_targets-projection (id ∷ ids) loaded t p ∙ rw c,
)
