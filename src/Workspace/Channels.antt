-- ===== src/Workspace/Channels.antt =====
-- The channels of a workspace: `add_channel`, `find_channel` and `reset_all_stats` in
-- software/src/core/workspace.cpp.
use bus_test_platform.Prelude.{
  ℕ, ◌+◌, ◌≡◌, refl, ap, ◌∙◌, true, false, not, ◌&&◌, is_some, none, some, List, [], ◌∷◌, ◌++◌,
  ◌==◌, if◌then◌else◌, length-append, arith, Bool-cases, Option-cases, inl, inr,
}
use bus_test_platform.Frame.{BusType}
use bus_test_platform.Signal.{Doubles}
use bus_test_platform.Workspace.{
  Channel, Workspace, make_channel, reset_stats, find_in, find_channel, channel_count, add_channel,
  reset_in, reset_all_stats,
}

module _ {d : Doubles} where
  -- A search goes on to the added channel only if it finds no other.
  find_in-append :
      (channels : List (Channel d)) (c : Channel d) (id : ℕ)
      → find_in (channels ++ c ∷ []) id ≡ elim (find_in channels id) [
        | some k ↦ some k
        | none ↦ if c.id == id then some c else none
      ]
  unfolding find_in
  find_in-append [] c id = refl
  find_in-append (k ∷ channels) c id = elim (Bool-cases (k.id == id)) [
    | inl same ↦ rw (same) refl
    | inr other ↦ rw (other) (find_in-append channels c id)
  ]

  find_in-reset_in :
      (channels : List (Channel d)) (id : ℕ)
      → find_in (reset_in channels) id
        ≡ elim (find_in channels id) [ some c ↦ some (reset_stats c) | none ↦ none ]
  unfolding find_in reset_in reset_stats
  find_in-reset_in [] id = refl
  find_in-reset_in (x ∷ channels) id = elim (Bool-cases (x.id == id)) [
    | inl same ↦ rw (same) refl
    | inr other ↦ rw (other) (find_in-reset_in channels id)
  ]

  pub add_channel-free :
      (w : Workspace d) (id : ℕ) (type : BusType) (name : List ℕ)
      → find_in w.channels id ≡ none
      → add_channel w id type name ≡ (
        record w { channels = w.channels ++ make_channel id type name ∷ [] },
        some (make_channel id type name),
      )
  unfolding add_channel find_channel
  add_channel-free w id type name free = rw (add_channel, free) refl

  pub add_channel-used :
      (w : Workspace d) (id : ℕ) (type : BusType) (name : List ℕ) (k : Channel d)
      → find_in w.channels id ≡ some k
      → add_channel w id type name ≡ (w, none)
  unfolding add_channel find_channel
  add_channel-used w id type name k used = rw (add_channel, used) refl

  find_in-added :
      (channels : List (Channel d)) (c : Channel d) (id : ℕ)
      → find_in channels c.id ≡ none
      → find_in (channels ++ c ∷ []) id ≡ (if id == c.id then some c else find_in channels id)
  find_in-added channels c id free = elim (Bool-cases (id == c.id)) [
    | inl same ↦
        let here : c.id == id ≡ true = ground arith in
        rw
          (
            find_in-append channels c id,
            ap (find_in channels) {x = id} {y = c.id} (ground arith) ∙ free,
            here,
            same,
          )
          refl
    | inr other ↦
        let there : c.id == id ≡ false = ground arith in
        elim (Option-cases (find_in channels id)) [
          | inl none_there ↦ rw (find_in-append channels c id, none_there, there, other) refl
          | inr (k, found) ↦ rw (find_in-append channels c id, found, other) refl
        ]
  ]

  -- `add_channel` succeeds just when the identifier is not in use; it then adds one channel, which
  -- the identifier finds from then on, and every other search gives what it gave before.
  pub add_channel_lem :
      (w : Workspace d) (id : ℕ) (type : BusType) (name : List ℕ) (other : ℕ)
      → let (w', made) = add_channel w id type name in
        (is_some made ≡ not (is_some (find_channel w id)))
        × (find_channel w' other
            ≡ (if is_some made && other == id then made else find_channel w other))
        × (channel_count w' ≡ channel_count w + (if is_some made then 1 else 0))
  unfolding find_channel channel_count make_channel
  add_channel_lem w id type name other =
      let c = make_channel {d = d} id type name in
      elim (Option-cases (find_in w.channels id)) [
        | inl free ↦
            rw (add_channel-free w id type name free, free)
              (refl, find_in-added w.channels c other free, length-append w.channels (c ∷ []))
        | inr (k, used) ↦
            rw (add_channel-used w id type name k used, used) (refl, refl, omega arith)
      ]

  -- After `reset_all_stats` each channel is found as before, under the same identifier, type, name
  -- and enabled flag, with all its counters at 0.
  pub reset_all_stats_lem :
      (w : Workspace d) (id : ℕ)
      → find_channel (reset_all_stats w) id ≡ elim (find_channel w id) [
        | some c ↦ some (record (make_channel c.id c.type c.name) { enabled = c.enabled })
        | none ↦ none
      ]
  unfolding find_channel reset_all_stats reset_stats make_channel
  reset_all_stats_lem w id = find_in-reset_in w.channels id
