-- ===== src/Workspace/History.antt =====
-- Everything that can be done with a workspace of software/src/core/workspace.cpp, through its own
-- operations and through the pointers to channels and nodes that it hands out. No element is ever
-- removed or moved, so a pointer is the place of its element.
pub mod Distinct
pub mod Invariant
use bus_test_platform.Prelude.{ℕ, zero, suc, ◌+◌, ◌%◌, ◌^◌, Bool, Option, none, some, List, [], ◌∷◌}
use bus_test_platform.Frame.{BusType}
use bus_test_platform.Signal.{Doubles}
use bus_test_platform.Workspace.{
  Channel, Node, Workspace, on_frame_rx, on_frame_tx, on_error, set_enabled, set_load_estimate,
  reset_stats, set_script_path, set_active, add_channel, add_node, reset_all_stats,
}

-- A call through the pointer to the element at a place.
abbrev pub through {ℓ} : {A : Type ℓ} → ℕ → (A → A) → List A → List A
through place call [] = []
through zero call (x ∷ xs) = call x ∷ xs
through (suc place) call (x ∷ xs) = x ∷ through place call xs

-- The calls that change a channel or a node.
pub data ChannelCall (d : Doubles) : Type 0 where
  received sent failed cleared : ChannelCall d
  enabling : Bool → ChannelCall d
  estimated : d.Double → ChannelCall d

pub data NodeCall : Type 0 where
  script : List ℕ → NodeCall
  activating : Bool → NodeCall

pub data Action (d : Doubles) : Type 0 where
  adding_channel : ℕ → BusType → List ℕ → Action d
  adding_node : List ℕ → ℕ → List ℕ → Action d
  on_channel : ℕ → ChannelCall d → Action d
  on_node : ℕ → NodeCall → Action d
  resetting : Action d

unfoldable pub call_node : NodeCall → Node → Node
call_node (script path) n = set_script_path path n
call_node (activating active) n = set_active active n

module _ {d : Doubles} where
  unfoldable pub empty_workspace : Workspace d
  empty_workspace = record { channels = []; nodes = [] }

  unfoldable pub call_channel : ChannelCall d → Channel d → Channel d
  call_channel received c = on_frame_rx c
  call_channel sent c = on_frame_tx c
  call_channel failed c = on_error c
  call_channel cleared c = reset_stats c
  call_channel (enabling enabled) c = set_enabled enabled c
  call_channel (estimated percent) c = set_load_estimate percent c

  unfoldable pub act : Workspace d → Action d → Workspace d
  act w (adding_channel id type name) = (add_channel w id type name).0
  act w (adding_node name channel_id script_path) = (add_node w name channel_id script_path).0
  act w (on_channel place call) = record w {
    channels = through place (call_channel call) w.channels;
  }
  act w (on_node place call) = record w { nodes = through place (call_node call) w.nodes }
  act w resetting = reset_all_stats w

  unfoldable pub history : Workspace d → List (Action d) → Workspace d
  history w [] = w
  history w (a ∷ actions) = history (act w a) actions
