-- ===== src/Workspace/History/Invariant.antt =====
-- What holds of every workspace of software/src/core/workspace.cpp, whatever is done with it.
use bus_test_platform.Prelude.{
  ℕ, zero, suc, ◌+◌, ◌%◌, ◌^◌, ◌≡◌, refl, true, false, none, List, [], ◌∷◌, ◌++◌, ◌==◌, same_name,
  All, arith, Bool-cases, Option-cases, inl, inr,
}
use bus_test_platform.Frame.{BusType}
use bus_test_platform.Signal.{Doubles}
use bus_test_platform.Workspace.{
  Channel, Node, Workspace, make_channel, on_frame_rx, on_frame_tx, on_error, set_enabled,
  set_load_estimate, reset_stats, set_script_path, set_active, find_in, add_channel, find_node_in,
  find_node, add_node, reset_in, reset_all_stats,
}
use bus_test_platform.Workspace.Channels.{add_channel-free, add_channel-used}
use bus_test_platform.Prelude.Keys.{Absent, Distinct, Distinct-append}
use bus_test_platform.Workspace.History.Distinct.{Distinct-through}
use bus_test_platform.Workspace.History.{
  through, ChannelCall, received, sent, failed, cleared, enabling, estimated, NodeCall, script,
  activating, empty_workspace, Action, adding_channel, adding_node, on_channel, on_node, resetting,
  call_node, call_channel, act, history,
}

same_name-turn : (a b : List ℕ) → same_name a b ≡ false → same_name b a ≡ false
same_name-turn [] [] h = h
same_name-turn [] (y ∷ ys) h = refl
same_name-turn (x ∷ xs) [] h = refl
same_name-turn (x ∷ xs) (y ∷ ys) h = elim (Bool-cases (x == y)) [
  | inl same ↦
      let rest : same_name xs ys ≡ false = rw (same) at h in
      let turned : y == x ≡ true = ground arith in rw (turned, same_name-turn xs ys rest) refl
  | inr other ↦ let turned : y == x ≡ false = ground arith in rw (turned) refl
]

==-turn : (a b : ℕ) → a == b ≡ false → b == a ≡ false
==-turn a b h = ground arith

find_node_in-Absent :
    (nodes : List Node) (name : List ℕ)
    → find_node_in nodes name ≡ none
    → Absent (λ (n : Node). n.name) same_name name nodes
unfolding find_node_in
find_node_in-Absent [] name h = tt
find_node_in-Absent (n ∷ nodes) name h = elim (Bool-cases (same_name n.name name)) [
  | inl same ↦ absurd (let no = rw (same) at h in cc)
  | inr other ↦ (other, find_node_in-Absent nodes name (rw (other) at h))
]

call_node-name : (call : NodeCall) (n : Node) → (call_node call n).name ≡ n.name
unfolding call_node set_script_path set_active
call_node-name (script path) n = refl
call_node-name (activating active) n = refl

module _ {d : Doubles} where
  -- No two channels have one identifier and no two nodes have one name.
  abbrev pub Named : Workspace d → Type 0
  Named w =
      Distinct (λ (c : Channel d). c.id) ◌==◌ w.channels
      × Distinct (λ (n : Node). n.name) same_name w.nodes

  -- The total counts what the two directions count, each modulo 2^64.
  abbrev pub Balanced : Channel d → Type 0
  Balanced c = c.total_frames % 2 ^ 64 ≡ (c.rx_count + c.tx_count) % 2 ^ 64

  abbrev pub Sound : Workspace d → Type 0
  Sound w = Named w × All Balanced w.channels

  find_in-Absent :
      (channels : List (Channel d)) (id : ℕ)
      → find_in channels id ≡ none
      → Absent (λ (c : Channel d). c.id) ◌==◌ id channels
  unfolding find_in
  find_in-Absent [] id h = tt
  find_in-Absent (c ∷ channels) id h = elim (Bool-cases (c.id == id)) [
    | inl same ↦ absurd (let no = rw (same) at h in cc)
    | inr other ↦ (other, find_in-Absent channels id (rw (other) at h))
  ]

  call_channel-id : (call : ChannelCall d) (c : Channel d) → (call_channel call c).id ≡ c.id
  unfolding call_channel on_frame_rx on_frame_tx on_error set_enabled set_load_estimate reset_stats
  call_channel-id received c = refl
  call_channel-id sent c = refl
  call_channel-id failed c = refl
  call_channel-id cleared c = refl
  call_channel-id (enabling enabled) c = refl
  call_channel-id (estimated percent) c = refl

  call_channel-Balanced :
      (call : ChannelCall d) (c : Channel d) → Balanced c → Balanced (call_channel call c)
  unfolding call_channel on_frame_rx on_frame_tx on_error set_enabled set_load_estimate reset_stats
  call_channel-Balanced received c h = omega arith
  call_channel-Balanced sent c h = omega arith
  call_channel-Balanced failed c h = h
  call_channel-Balanced cleared c h = refl
  call_channel-Balanced (enabling enabled) c h = h
  call_channel-Balanced (estimated percent) c h = h

  reset_in-Absent :
      (channels : List (Channel d)) (id : ℕ)
      → Absent (λ (c : Channel d). c.id) ◌==◌ id channels
      → Absent (λ (c : Channel d). c.id) ◌==◌ id (reset_in channels)
  unfolding reset_in reset_stats
  reset_in-Absent [] id h = tt
  reset_in-Absent (c ∷ channels) id (hc, h) = (hc, reset_in-Absent channels id h)

  reset_in-Distinct :
      (channels : List (Channel d))
      → Distinct (λ (c : Channel d). c.id) ◌==◌ channels
      → Distinct (λ (c : Channel d). c.id) ◌==◌ (reset_in channels)
  unfolding reset_in reset_stats
  reset_in-Distinct [] h = tt
  reset_in-Distinct (c ∷ channels) (hc, h) =
      (reset_in-Absent channels c.id hc, reset_in-Distinct channels h)

  reset_in-Balanced : (channels : List (Channel d)) → All Balanced (reset_in channels)
  unfolding reset_in reset_stats
  reset_in-Balanced [] = tt
  reset_in-Balanced (c ∷ channels) = (refl, reset_in-Balanced channels)

  Balanced-through :
      (call : ChannelCall d) (place : ℕ) (channels : List (Channel d))
      → All Balanced channels
      → All Balanced (through place (call_channel call) channels)
  Balanced-through call place [] h = tt
  Balanced-through call zero (c ∷ channels) (hc, h) = (call_channel-Balanced call c hc, h)
  Balanced-through call (suc place) (c ∷ channels) (hc, h) =
      (hc, Balanced-through call place channels h)

  Balanced-append :
      (channels : List (Channel d)) (c : Channel d)
      → All Balanced channels
      → Balanced c
      → All Balanced (channels ++ c ∷ [])
  Balanced-append [] c h hc = (hc, tt)
  Balanced-append (k ∷ channels) c (hk, h) hc = (hk, Balanced-append channels c h hc)

  add_channel-Sound :
      (w : Workspace d) (id : ℕ) (type : BusType) (name : List ℕ)
      → Sound w
      → Sound (add_channel w id type name).0
  unfolding make_channel
  add_channel-Sound w id type name h = elim (Option-cases (find_in w.channels id)) [
    | inl free ↦
        let c = make_channel {d = d} id type name in
        rw (add_channel-free w id type name free) (
          (
            Distinct-append (λ (k : Channel d). k.id) ◌==◌ ==-turn w.channels c h.0.0
                (find_in-Absent w.channels id free),
            h.0.1,
          ),
          Balanced-append w.channels c h.1 refl,
        )
    | inr (k, used) ↦ rw (add_channel-used w id type name k used) h
  ]

  add_node-Sound :
      (w : Workspace d) (name : List ℕ) (channel_id : ℕ) (script_path : List ℕ)
      → Sound w
      → Sound (add_node w name channel_id script_path).0
  unfolding add_node find_node
  add_node-Sound w name channel_id script_path h =
      let n : Node = record {
        name = name;
        channel_id = channel_id;
        script_path = script_path;
        active = true;
      } in
      elim (Option-cases (find_node_in w.nodes name)) [
        | inl free ↦
            rw (add_node, free)
              (
                (
                  h.0.0,
                  Distinct-append (λ (k : Node). k.name) same_name same_name-turn w.nodes n h.0.1
                      (find_node_in-Absent w.nodes name free),
                ),
                h.1,
              )
        | inr (k, used) ↦ rw (add_node, used) h
      ]

  act-Sound : (w : Workspace d) (a : Action d) → Sound w → Sound (act w a)
  unfolding act reset_all_stats
  act-Sound w (adding_channel id type name) h = add_channel-Sound w id type name h
  act-Sound w (adding_node name channel_id script_path) h =
      add_node-Sound w name channel_id script_path h
  act-Sound w (on_channel place call) h = (
    (
      Distinct-through (λ (c : Channel d). c.id) ◌==◌ (call_channel call) (call_channel-id call)
          place w.channels h.0.0,
      h.0.1,
    ),
    Balanced-through call place w.channels h.1,
  )
  act-Sound w (on_node place call) h = (
    (
      h.0.0,
      Distinct-through (λ (n : Node). n.name) same_name (call_node call) (call_node-name call) place
          w.nodes h.0.1,
    ),
    h.1,
  )
  act-Sound w resetting h =
      ((reset_in-Distinct w.channels h.0.0, h.0.1), reset_in-Balanced w.channels)

  history-Sound :
      (w : Workspace d) (actions : List (Action d)) → Sound w → Sound (history w actions)
  unfolding history
  history-Sound w [] h = h
  history-Sound w (a ∷ actions) h = history-Sound (act w a) actions (act-Sound w a h)

  -- Whatever is done with an empty workspace, through its own operations and through its pointers to
  -- channels and nodes: no two of its channels share an identifier, no two of its nodes share a
  -- name, and each channel's total is the sum of its received and sent frames modulo 2^64.
  pub empty_history-Sound : (actions : List (Action d)) → Sound (history empty_workspace actions)
  unfolding empty_workspace
  empty_history-Sound actions = history-Sound empty_workspace actions ((tt, tt), tt)
