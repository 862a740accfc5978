-- ===== src/Dbc/File/RoundTrip.antt =====
-- `DbcParser::parse` of software/src/protocol/dbc/dbc_parser.cpp on the files of Dbc/File/Print.
use bus_test_platform.Prelude.{
  ℕ, ◌≡◌, refl, sym, ap, ◌∙◌, false, none, List, [], ◌∷◌, ◌++◌, append_assoc, append-nil, All,
}
use bus_test_platform.Signal.{Doubles, Signal}
use bus_test_platform.Dbc.{DbcMessage}
use bus_test_platform.Dbc.Text.{Numbers, is_nil, trim}
use bus_test_platform.Dbc.Bo.{bo_line, parse_bo-bo_line}
use bus_test_platform.Dbc.Result.{taken}
use bus_test_platform.Dbc.Scan.{Decimals, starts_with, getlines, getlines-line}
use bus_test_platform.Dbc.Sg.Print.{SgText, sg_line}
use bus_test_platform.Dbc.Sg.RoundTrip.{signal_of, parse_sg-sg_line}
use bus_test_platform.Dbc.File.{add_signal, add_message, parse_line, parse_lines, parse}
use bus_test_platform.Dbc.File.Lines.{parse_lines-taken}
use bus_test_platform.Dbc.File.Whole.{trim-bo_line, trim-sg_line, bo_line-Without, sg_line-Without}
use bus_test_platform.Dbc.File.Print.{
  BoText, sg_text, db_text, SgReadable, BoReadable, signals_of, message_of, messages_of,
}

module _ {d : Doubles} where
  -- A message with more signals at its end.
  abbrev with_signals : DbcMessage d → List (Signal d) → DbcMessage d
  with_signals m ss = record {
    id = m.id;
    name = m.name;
    dlc = m.dlc;
    tx_node = m.tx_node;
    signals = m.signals ++ ss;
  }

  add_signal-last :
      (pre : List (DbcMessage d)) (m : DbcMessage d) (s : Signal d)
      → add_signal (pre ++ m ∷ []) s ≡ pre ++ with_signals m (s ∷ []) ∷ []
  unfolding add_signal
  add_signal-last [] m s = refl
  add_signal-last (x ∷ []) m s = refl
  add_signal-last (x ∷ y ∷ pre) m s = ap (λ ms. x ∷ ms) (add_signal-last (y ∷ pre) m s)

  not_empty : (pre : List (DbcMessage d)) (m : DbcMessage d) → is_nil (pre ++ m ∷ []) ≡ false
  not_empty [] m = refl
  not_empty (x ∷ pre) m = refl

  module _ (n : Numbers) (r : Decimals d) where
    line_of_signal :
        (pre : List (DbcMessage d)) (m : DbcMessage d) (t : SgText) (h : SgReadable n r t)
        → parse_line n r (pre ++ m ∷ []) (trim (sg_line t))
          ≡ taken (pre ++ with_signals m (signal_of t h.reads ∷ []) ∷ [])
    unfolding parse_line starts_with
    line_of_signal pre m t h =
        rw
          (
            trim-sg_line t h.receivers_token,
            not_empty pre m,
            parse_sg-sg_line n r t h.reads h.printable,
            add_signal-last pre m (signal_of t h.reads),
          )
          refl

    line_of_message :
        (pre : List (DbcMessage d)) (m : _) (h : BoReadable n r m)
        → parse_line n r pre (trim (bo_line m.id m.name m.dlc m.node))
          ≡ taken (
              pre
              ++ record { id = h.id; name = m.name; dlc = h.dlc; tx_node = m.node; signals = [] }
                ∷ [])
    unfolding parse_line starts_with add_message
    line_of_message pre m h =
        rw
          (
            trim-bo_line m.id m.name m.dlc m.node h.node_token,
            add_message,
            parse_bo-bo_line {d = d} n m.id m.name m.dlc m.node h.id h.dlc h.id_token h.name_token
                h.dlc_token h.node_token h.id_read h.dlc_read h.dlc_short,
          )
          refl

    signals_read :
        (pre : List (DbcMessage d)) (m : DbcMessage d) (ts : List SgText)
        (h : All (SgReadable n r) ts) (rest : List ℕ)
        → parse_lines n r (pre ++ m ∷ []) (getlines (sg_text ts ++ rest))
          ≡ parse_lines n r (pre ++ with_signals m (signals_of n r ts h) ∷ []) (getlines rest)
    signals_read pre m [] h rest =
        ap
          (λ ss.
            parse_lines n r
              (pre
                ++ record {
                  id = m.id;
                  name = m.name;
                  dlc = m.dlc;
                  tx_node = m.tx_node;
                  signals = ss;
                }
                  ∷ [])
              (getlines rest))
          (sym (append-nil m.signals))
    signals_read pre m (t ∷ ts) (ht, h) rest =
        let s = signal_of t ht.reads in
        let line = sg_line-Without t ht.printable ht.receivers_token ht.unit_line in
        ap (λ text. parse_lines n r (pre ++ m ∷ []) (getlines text))
          (append_assoc (sg_line t) (10 ∷ sg_text ts) rest)
        ∙ ap (parse_lines n r (pre ++ m ∷ [])) (getlines-line (sg_line t) (sg_text ts ++ rest) line)
        ∙ parse_lines-taken n r (pre ++ m ∷ []) _ (sg_line t) (getlines (sg_text ts ++ rest))
            (line_of_signal pre m t ht)
        ∙ signals_read pre (with_signals m (s ∷ [])) ts h rest
        ∙ ap
            (λ ss.
              parse_lines n r
                (pre
                  ++ record {
                    id = m.id;
                    name = m.name;
                    dlc = m.dlc;
                    tx_node = m.tx_node;
                    signals = ss;
                  }
                    ∷ [])
                (getlines rest))
            (append_assoc m.signals (s ∷ []) (signals_of n r ts h))

    messages_read :
        (pre : List (DbcMessage d)) (ms : List BoText) (h : All (BoReadable n r) ms)
        → parse_lines n r pre (getlines (db_text ms)) ≡ (pre ++ messages_of n r ms h, none)
    unfolding getlines parse_lines
    messages_read pre [] h = ap (λ ms. (ms, none)) (sym (append-nil pre))
    messages_read pre (m ∷ ms) (hm, h) =
        let line = bo_line m.id m.name m.dlc m.node in
        let bare : DbcMessage d = record {
          id = hm.id;
          name = m.name;
          dlc = hm.dlc;
          tx_node = m.node;
          signals = [];
        } in
        let behind = sg_text m.signals ++ db_text ms in
        ap (parse_lines n r pre) (
          getlines-line line behind (
            bo_line-Without m.id m.name m.dlc m.node hm.id_token hm.name_token hm.dlc_token
              hm.node_token))
        ∙ parse_lines-taken n r pre (pre ++ bare ∷ []) line (getlines behind)
            (line_of_message pre m hm)
        ∙ signals_read pre bare m.signals hm.signals (db_text ms)
        ∙ messages_read (pre ++ message_of n r m hm ∷ []) ms h
        ∙ ap (λ ms. (ms, none)) (append_assoc pre (message_of n r m hm ∷ []) (messages_of n r ms h))

    -- A file written from messages and signals is read back: every message in its place, with its
    -- identifier, name, length and node, and behind it every signal in its place, as the line of the
    -- signal is read. The parse ends without an error. The numbers can be read from their texts, the
    -- names and numbers are words, no unit has a quotation mark or a line feed, every message names
    -- a node and every signal a receiver, and the lengths are at most 64.
    pub parse-db_text :
        (ms : List BoText) (h : All (BoReadable n r) ms)
        → parse n r (db_text ms) ≡ (messages_of n r ms h, none)
    unfolding parse
    parse-db_text ms h = messages_read [] ms h
