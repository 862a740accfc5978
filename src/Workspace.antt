-- ===== src/Workspace.antt =====
-- The object model: software/src/core/channel.h, channel.cpp, node.h, node.cpp, workspace.h and
-- workspace.cpp. A `std::string` is the list of its bytes; a pointer to an element is the element.
pub mod Channels
pub mod History
use bus_test_platform.Prelude.{
  same_name, ℕ, ◌+◌, ◌%◌, ◌^◌, Bool, true, false, ◌&&◌, Option, none, some, List, [], ◌∷◌, ◌++◌,
  ◌==◌, if◌then◌else◌, length,
}
use bus_test_platform.Frame.{BusType}
use bus_test_platform.Signal.{Doubles}

-- `class Channel`
pub record Channel (d : Doubles) : Type 0 where
  pub id : ℕ
  pub type : BusType
  pub name : List ℕ
  pub enabled : Bool
  pub rx_count : ℕ
  pub tx_count : ℕ
  pub error_count : ℕ
  pub total_frames : ℕ
  pub load_estimate_percent : d.Double

-- `class Node`
pub record Node : Type 0 where
  pub name : List ℕ
  pub channel_id : ℕ
  pub script_path : List ℕ
  pub active : Bool

pub record Workspace (d : Doubles) : Type 0 where
  pub channels : List (Channel d)
  pub nodes : List Node

unfoldable pub find_node_in : List Node → List ℕ → Option Node
find_node_in [] name = none
find_node_in (n ∷ nodes) name = if same_name n.name name then some n else find_node_in nodes name

unfoldable pub set_script_path : List ℕ → Node → Node
set_script_path path n = record n { script_path = path }

unfoldable pub set_active : Bool → Node → Node
set_active active n = record n { active = active }

module _ {d : Doubles} where
  unfoldable pub make_channel : ℕ → BusType → List ℕ → Channel d
  make_channel id type name = record {
    id = id;
    type = type;
    name = name;
    enabled = true;
    rx_count = 0;
    tx_count = 0;
    error_count = 0;
    total_frames = 0;
    load_estimate_percent = d.nought;
  }

  unfoldable pub on_frame_rx : Channel d → Channel d
  on_frame_rx c = record c {
    rx_count = (c.rx_count + 1) % 2 ^ 64;
    total_frames = (c.total_frames + 1) % 2 ^ 64;
  }

  unfoldable pub on_frame_tx : Channel d → Channel d
  on_frame_tx c = record c {
    tx_count = (c.tx_count + 1) % 2 ^ 64;
    total_frames = (c.total_frames + 1) % 2 ^ 64;
  }

  unfoldable pub set_enabled : Bool → Channel d → Channel d
  set_enabled enabled c = record c { enabled = enabled }

  unfoldable pub set_load_estimate : d.Double → Channel d → Channel d
  set_load_estimate percent c = record c { load_estimate_percent = percent }

  unfoldable pub on_error : Channel d → Channel d
  on_error c = record c { error_count = (c.error_count + 1) % 2 ^ 64 }

  unfoldable pub reset_stats : Channel d → Channel d
  reset_stats c = record c {
    rx_count = 0;
    tx_count = 0;
    error_count = 0;
    total_frames = 0;
    load_estimate_percent = d.nought;
  }

  unfoldable pub find_in : List (Channel d) → ℕ → Option (Channel d)
  find_in [] id = none
  find_in (c ∷ channels) id = if c.id == id then some c else find_in channels id

  unfoldable pub find_channel : Workspace d → ℕ → Option (Channel d)
  find_channel w id = find_in w.channels id

  unfoldable pub channel_count : Workspace d → ℕ
  channel_count w = length w.channels

  -- `channels()`: the pointers are the channels.
  unfoldable pub list_channels : Workspace d → List (Channel d)
  list_channels w = w.channels

  unfoldable pub add_channel : Workspace d → ℕ → BusType → List ℕ → Workspace d × Option (Channel d)
  add_channel w id type name =
      let c = make_channel id type name in
      elim (find_channel w id) [
        | some found ↦ (w, none)
        | none ↦ (record w { channels = w.channels ++ c ∷ [] }, some c)
      ]

  unfoldable pub find_node : Workspace d → List ℕ → Option Node
  find_node w name = find_node_in w.nodes name

  unfoldable pub node_count : Workspace d → ℕ
  node_count w = length w.nodes

  unfoldable pub add_node : Workspace d → List ℕ → ℕ → List ℕ → Workspace d × Option Node
  add_node w name channel_id script_path =
      let n : Node = record {
        name = name;
        channel_id = channel_id;
        script_path = script_path;
        active = true;
      } in
      elim (find_node w name) [
        | some found ↦ (w, none)
        | none ↦ (record w { nodes = w.nodes ++ n ∷ [] }, some n)
      ]

  unfoldable pub reset_in : List (Channel d) → List (Channel d)
  reset_in [] = []
  reset_in (c ∷ channels) = reset_stats c ∷ reset_in channels

  unfoldable pub reset_all_stats : Workspace d → Workspace d
  reset_all_stats w = record w { channels = reset_in w.channels }
