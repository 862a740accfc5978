-- ===== src/Cli.antt =====
-- The command line tool `busmon`, software/src/main.cpp. A C string and a text printed are the lists of
-- their bytes, without the NUL. The version of the build, `atof`, `atoi`, what `printf` makes of a
-- `double`, and the report that the suite measures are parameters.
pub mod Options
pub mod Exit
use Prim.Native.String.{String}
use bus_test_platform.Prelude.{
  ℕ, ◌+◌, Bool, true, false, ◌&&◌, ◌||◌, Option, none, some, List, [], ◌∷◌, ◌++◌, is_some,
  if◌then◌else◌, same_name, drop,
}
use bus_test_platform.Prelude.Int.{ℤ, unsigned32}
use bus_test_platform.Prelude.Print.{codes, dec32, dec64, hex32, pad}
use bus_test_platform.Signal.{Doubles}
use bus_test_platform.Frame.{canfd, lin}
use bus_test_platform.Wire.{version, magic, ep_data_in, ep_cmd_out, ep_evt_in, frames_per_packet}
use bus_test_platform.Hal.{NullDevice, null_device}
use bus_test_platform.Dbc.Scan.{starts_with}
use bus_test_platform.Workspace.{
  Channel, Workspace, add_channel, add_node, list_channels, channel_count, node_count,
}
use bus_test_platform.Workspace.History.{received, sent, on_channel, empty_workspace, history}
use bus_test_platform.Bench.{pass_loss_accounting}
use bus_test_platform.Bench.Report.{
  BenchReport, line, pass_throughput, pass_latency, print_bench_report,
}

-- What a run leaves: its exit code and the texts on `stdout` and `stderr`.
pub record Run : Type 0 where
  pub code : ℕ
  pub printed : List ℕ
  pub errors : List ℕ

abbrev pub failed : String → Run
failed message = record { code = 1; printed = []; errors = line (codes message ∷ []) }

-- The title after the version, in UTF-8.
abbrev title : List ℕ
title =
    0xe6 ∷ 0xb1 ∷ 0xbd ∷ 0xe8 ∷ 0xbd ∷ 0xa6 ∷ 0xe6 ∷ 0x80 ∷ 0xbb ∷ 0xe7 ∷ 0xba ∷ 0xbf ∷ 0xe6 ∷ 0xb5
    ∷ 0x8b ∷ 0xe8 ∷ 0xaf ∷ 0x95 ∷ 0xe5 ∷ 0xb9 ∷ 0xb3 ∷ 0xe5 ∷ 0x8f ∷ 0xb0 ∷ 0x20 ∷ 0x50 ∷ 0x43
    ∷ 0x20 ∷ 0xe7 ∷ 0xab ∷ 0xaf ∷ 0xe9 ∷ 0xaa ∷ 0xa8 ∷ 0xe6 ∷ 0x9e ∷ 0xb6 ∷ []

unfoldable pub cmd_info : List ℕ → Run
cmd_info project_version =
    let closed : NullDevice = record { is_open_flag = false; cmd_count = 0 } in
    let (device, opened) = null_device.open_device closed 0 in
    let printed =
      line (codes "busmon " ∷ project_version ∷ codes " - " ∷ title ∷ [])
      ++ line (codes "  device        : " ∷ codes null_device.name ∷ [])
      ++ line (
          codes "  usb protocol  : v"
          ∷ dec32 version
          ∷ codes " (magic 0x"
          ∷ pad 4 (hex32 magic)
          ∷ codes ")"
          ∷ [])
      ++ line (
          codes "  endpoints     : EP1 IN 0x"
          ∷ pad 2 (hex32 ep_data_in)
          ∷ codes " data | EP2 OUT 0x"
          ∷ pad 2 (hex32 ep_cmd_out)
          ∷ codes " cmd | EP3 IN 0x"
          ∷ pad 2 (hex32 ep_evt_in)
          ∷ codes " evt"
          ∷ [])
      ++ line (codes "  frames/packet : " ∷ dec32 frames_per_packet ∷ [])
      ++ line (codes "  status        : OK (null self-test device, no hardware)" ∷ []) in
    if opened
    then record { code = 0; printed = printed; errors = [] }
    else failed "error: cannot open null device"

-- `none` is the null pointer.
unfoldable pub cmd_usage : Option (List ℕ) → Run
cmd_usage argv0 =
    let self : List ℕ = elim argv0 [
      | none ↦ codes "busmon"
      | some [] ↦ codes "busmon"
      | some (c ∷ rest) ↦ c ∷ rest
    ] in
    record {
      code = 0;
      printed =
          line (codes "usage: " ∷ self ∷ codes " [--info | --demo | --bench [opts] | --help]" ∷ [])
          ++ line (codes "  --info   device & protocol summary (default)" ∷ [])
          ++ line (codes "  --demo   exercise the object model (channels/nodes)" ∷ [])
          ++ line (codes "  --bench  M1 host benchmark: [--duration=S] [--rate=N]" ∷ [])
          ++ line (codes "           exit 0 = all gates pass, 2 = gate failure" ∷ [])
          ++ line (codes "  --help   this message" ∷ []);
      errors = [];
    }

module _ (d : Doubles) where
  -- The line of a channel.
  unfoldable pub channel_line : Channel d → List ℕ
  channel_line c = line (
      codes "  ch"
      ∷ dec32 c.id
      ∷ codes " "
      ∷ c.name
      ∷ codes " "
      ∷ (if c.enabled then codes "enabled" else codes "disabled")
      ∷ codes " (rx="
      ∷ dec64 c.rx_count
      ∷ codes " tx="
      ∷ dec64 c.tx_count
      ∷ codes ")"
      ∷ [])

  unfoldable pub channel_lines : List (Channel d) → List ℕ
  channel_lines [] = []
  channel_lines (c ∷ channels) = channel_line c ++ channel_lines channels

  -- `ch0` is the first channel.
  unfoldable pub cmd_demo : Run
  cmd_demo =
      let (ws0, ch0) = add_channel {d = d} empty_workspace 0 canfd (codes "CAN FD #0") in
      let ws1 = (add_channel ws0 1 canfd (codes "CAN FD #1")).0 in
      let ws2 = (add_channel ws1 2 lin (codes "LIN #0")).0 in
      let (ws3, n) = add_node ws2 (codes "ECU_Engine") 0 [] in
      let ws =
        history ws3 (on_channel 0 received ∷ on_channel 0 received ∷ on_channel 0 sent ∷ []) in
      if is_some ch0 && is_some n
      then record {
        code = 0;
        printed =
            line (codes "workspace channels: " ∷ dec64 (channel_count ws) ∷ [])
            ++ channel_lines (list_channels ws)
            ++ line (codes "workspace nodes   : " ∷ dec64 (node_count ws) ∷ [])
            ++ line (codes "engines           : RBS/script/test-runner skeleton (Phase B)" ∷ []);
        errors = [];
      }
      else failed "error: workspace setup failed"

module _ (d : Doubles) (atof : List ℕ → d.Double) (atoi : List ℕ → ℤ) where
  -- The loop over the options, from the values so far on: `duration` and `rate`.
  unfoldable pub bench_options : d.Double → ℕ → List (List ℕ) → d.Double × ℕ
  bench_options duration rate [] = (duration, rate)
  bench_options duration rate (a ∷ args) =
      let after_duration = bench_options (atof (drop 11 a)) rate args in
      let after_rate = bench_options duration (unsigned32 (atoi (drop 7 a))) args in
      let rest = bench_options duration rate args in
      if starts_with (codes "--duration=") a
      then after_duration
      else if starts_with (codes "--rate=") a
      then after_rate
      else rest

  -- `main` and the benchmark, whose whole suite is `suite`.
  module _ (fixed : ℕ → d.Double → List ℕ) (suite : d.Double → ℕ → BenchReport d) where
    unfoldable pub cmd_bench : List (List ℕ) → Run
    cmd_bench argv =
        let (duration, rate) = bench_options d.unit 50000 (drop 2 argv) in
        let r = suite duration rate in
        record {
          code =
              if pass_throughput r && pass_latency r && pass_loss_accounting r.frames r.dropped
              then 0
              else 2;
          printed =
              line (
                codes "running bench suite: duration="
                ∷ fixed 2 duration
                ∷ codes "s sim_rate="
                ∷ dec32 rate
                ∷ codes " msg/s ..."
                ∷ [])
              ++ print_bench_report fixed r;
          errors = [];
        }

    unfoldable pub busmon_main : List ℕ → List (List ℕ) → Run
    busmon_main project_version argv =
        let cmd : List ℕ = elim argv [
          | [] ↦ codes "--info"
          | self ∷ args ↦ elim args [ [] ↦ codes "--info" | cmd ∷ rest ↦ cmd ]
        ] in
        let argv0 : Option (List ℕ) = elim argv [ [] ↦ none | self ∷ args ↦ some self ] in
        if same_name cmd (codes "--info") || same_name cmd (codes "-i")
        then cmd_info project_version
        else if same_name cmd (codes "--demo") || same_name cmd (codes "-d")
        then cmd_demo d
        else if same_name cmd (codes "--bench") || same_name cmd (codes "-b")
        then cmd_bench argv
        else cmd_usage argv0
