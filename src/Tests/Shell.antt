-- ===== src/Tests/Shell.antt =====
-- Texts, workspaces and runs of the command line tool on concrete data.
use bus_test_platform.Prelude.{
  ◌>>=◌, ◌≡◌, not, ◌&&◌, leb, if◌then◌else◌, some, none, List, [], ◌∷◌, ◌++◌, take,
}
use bus_test_platform.Prelude.Int.{pos}
use bus_test_platform.Prelude.Print.{codes, chain}
use bus_test_platform.Frame.{canfd, lin}
use bus_test_platform.Frame.Text.{header_texts, frame_to_string}
use bus_test_platform.Frame.Text.Bounds.{hex_bytes, frame_to_string_lem}
use bus_test_platform.Workspace.History.{
  received, sent, Action, adding_channel, adding_node, on_channel, empty_workspace, history,
}
use bus_test_platform.Workspace.History.Invariant.{Sound, empty_history-Sound}
use bus_test_platform.Bench.Report.{BenchReport}
use bus_test_platform.Cli.{busmon_main}
use bus_test_platform.Cli.Exit.{main_lem, asks_bench, all_gates}
use bus_test_platform.Tests.Data.{whole, bytes, frame, frame-IsFrame}

frame_to_string_lem_example : frame_to_string frame ≡ (
    if leb 8 64
    then some (chain (header_texts frame) [] ++ 32 ∷ hex_bytes (take 8 bytes))
    else none)
frame_to_string_lem_example = frame_to_string_lem frame frame-IsFrame

abbrev actions : List (Action whole)
actions =
    adding_channel 0 canfd (codes "A")
    ∷ adding_channel 0 lin (codes "B")
    ∷ adding_node (codes "N") 0 []
    ∷ adding_node (codes "N") 0 []
    ∷ on_channel 0 received
    ∷ on_channel 0 sent
    ∷ on_channel 1 received
    ∷ []

empty_history-Sound_example : Sound (history empty_workspace actions)
empty_history-Sound_example = empty_history-Sound actions

-- A report that passes the throughput gate only.
abbrev report : BenchReport whole
report = record {
  duration_s = 1;
  frames = 60000;
  pipeline_throughput = 60000;
  latency_avg_us = 1;
  latency_max_us = 2;
  dropped = 984;
  codec_frames = 10;
  codec_throughput = 10;
  e2e_frames = 10;
  e2e_throughput = 10;
  e2e_latency_avg_us = 2000;
  e2e_latency_max_us = 3000;
  e2e_dropped = 0;
  sim_rate_achieved = 10;
}

main_lem_example :
    let argv = codes "busmon" ∷ codes "--bench" ∷ codes "--rate=7" ∷ [] in
    let run =
      busmon_main whole (λ s. 3) (λ s. pos 7) (λ n x. []) (λ s n. report) (codes "0.1") argv in
    (run.code ≡ (if asks_bench argv && not (all_gates report) then 2 else 0)) × (run.errors ≡ [])
main_lem_example =
    main_lem whole (λ s. 3) (λ s. pos 7) (λ n x. []) (λ s n. report) (codes "0.1")
      (codes "busmon" ∷ codes "--bench" ∷ codes "--rate=7" ∷ [])
