-- ===== src/Parser/Nlb/Laws.antt =====
-- Which lines the NLB parser of pkg/parser/nlb_parser.go takes, and what its entries satisfy.
use otel_aws_log_processor.Prelude.{
  ◌≤◌, ◌<◌, ◌≡◌, refl, Bool, true, false, ◌||◌, List, [], Option, none, some, ltb, leb, ◌==◌,
  if◌then◌else◌, length, get_or, Text, txt, text_eq, trim_space, fields, cut_last, arith,
  Bool-cases, inl, inr,
}
use otel_aws_log_processor.Prelude.Int.{ℤ, pos, ◌≤ℤ◌}
use otel_aws_log_processor.Prelude.Floats.{Floats}
use otel_aws_log_processor.Utils.Conversion.{safe_string, is_blank, parse_int}
use otel_aws_log_processor.Parser.Line.{Line, skipped, failed, entry, is_skipped}
use otel_aws_log_processor.Parser.Nlb.{
  NlbLogEntry, clamp_port, host_port, parse_ip_port, base_entry, tcp_entry, tls_entry,
  fallback_entry, entry_of_fields, parse_log_line,
}

clamp_port-nonnegative : (p : ℤ) → pos 0 ≤ℤ clamp_port p
clamp_port-nonnegative p = ground arith

host_port-nonnegative : (s : Text) (o : Option (Text × Text)) → pos 0 ≤ℤ (host_port s o).1
host_port-nonnegative s none = omega arith
host_port-nonnegative s (some (ip, port)) = clamp_port-nonnegative (parse_int (trim_space port))

parse_ip_port-nonnegative : (s : Text) → pos 0 ≤ℤ (parse_ip_port s).1
unfolding parse_ip_port
parse_ip_port-nonnegative s =
    by_test
      (is_blank (trim_space s)
        || text_eq (trim_space s) (txt "-1")
        || text_eq (trim_space s) (txt "- -"))
      (host_port (trim_space s) (cut_last (trim_space s) b':'))
      (host_port-nonnegative (trim_space s) (cut_last (trim_space s) b':'))
  where
    by_test :
        (b : Bool) (r : Text × ℤ)
        → pos 0 ≤ℤ r.1
        → pos 0 ≤ℤ (if◌then◌else◌ {A = Text × ℤ} b ([], pos 0) r).1
    by_test true r h = omega arith
    by_test false r h = h

module _ (fl : Floats) where
  open fl use {Float}

  -- What every entry has, whichever of the layouts its line is in.
  pub record FromFields (fs : List Text) (e : NlbLogEntry Float) : Type 0 where
    pub client_port : pos 0 ≤ℤ e.client_port
    pub target_port : pos 0 ≤ℤ e.target_port
    pub time : e.time ≡ safe_string (get_or fs 2 [])
    pub elb : e.elb ≡ safe_string (get_or fs 3 [])

  base_entry-FromFields : (fs : List Text) → FromFields fs (base_entry fl fs)
  unfolding base_entry
  base_entry-FromFields fs = record {
    client_port = parse_ip_port-nonnegative (get_or fs 5 []);
    target_port = parse_ip_port-nonnegative (get_or fs 6 []);
    time = refl;
    elb = refl;
  }

  tcp_entry-FromFields :
      (fs : List Text) (e : NlbLogEntry Float) → FromFields fs e → FromFields fs (tcp_entry fl fs e)
  unfolding tcp_entry
  tcp_entry-FromFields fs e h = record {
    client_port = h.client_port;
    target_port = h.target_port;
    time = h.time;
    elb = h.elb;
  }

  tls_entry-FromFields :
      (fs : List Text) (e : NlbLogEntry Float) → FromFields fs e → FromFields fs (tls_entry fl fs e)
  unfolding tls_entry
  tls_entry-FromFields fs e h = record {
    client_port = h.client_port;
    target_port = h.target_port;
    time = h.time;
    elb = h.elb;
  }

  fallback_entry-FromFields :
      (fs : List Text) (e : NlbLogEntry Float)
      → FromFields fs e
      → FromFields fs (fallback_entry fl fs e)
  unfolding fallback_entry
  fallback_entry-FromFields fs e h = elim (Bool-cases (text_eq e.kind (txt "tcp"))) [
    | inl p ↦
        rw (fallback_entry, p)
          (record {
            client_port = h.client_port;
            target_port = h.target_port;
            time = h.time;
            elb = h.elb;
          })
    | inr p ↦
        rw (fallback_entry, p)
          (record {
            client_port = h.client_port;
            target_port = h.target_port;
            time = h.time;
            elb = h.elb;
          })
  ]

  -- What becomes of a line.
  pub data Verdict (line : Text) : Line (NlbLogEntry Float) → Type 0 where
    comment : is_skipped (trim_space line) ≡ true → Verdict line skipped
    short :
        is_skipped (trim_space line) ≡ false
        → length (fields (trim_space line)) < 10
        → Verdict line failed
    parsed :
        (e : NlbLogEntry Float)
        → is_skipped (trim_space line) ≡ false
        → 10 ≤ length (fields (trim_space line))
        → FromFields (fields (trim_space line)) e
        → Verdict line (entry e)

  entry_of_fields-Verdict :
      (line : Text)
      → is_skipped (trim_space line) ≡ false
      → Verdict line (entry_of_fields fl (fields (trim_space line)))
  unfolding entry_of_fields
  entry_of_fields-Verdict line s =
      let fs = fields (trim_space line) in
      let h = base_entry-FromFields fs in
      elim (Bool-cases (ltb (length fs) 10)) [
        | inl p ↦ rw (entry_of_fields, p) (short s (ground arith))
        | inr p ↦ elim (Bool-cases (length fs == 10)) [
          | inl q ↦
              rw (entry_of_fields, p, q)
                (parsed (tcp_entry fl fs (base_entry fl fs)) s (ground arith)
                  (tcp_entry-FromFields fs (base_entry fl fs) h))
          | inr q ↦ elim (Bool-cases (leb 22 (length fs))) [
            | inl r ↦
                rw (entry_of_fields, p, q, r)
                  (parsed (tls_entry fl fs (base_entry fl fs)) s (ground arith)
                    (tls_entry-FromFields fs (base_entry fl fs) h))
            | inr r ↦
                rw (entry_of_fields, p, q, r)
                  (parsed (fallback_entry fl fs (base_entry fl fs)) s (ground arith)
                    (fallback_entry-FromFields fs (base_entry fl fs) h))
          ]
        ]
      ]

  -- The NLB parser skips blank lines and comments, rejects exactly the other lines that have fewer
  -- than ten fields, and takes the rest: whatever their fields say, the ports of the entry are not
  -- negative, and its time and load balancer are those of the line.
  pub parse_log_line-Verdict : (line : Text) → Verdict line (parse_log_line fl line)
  unfolding parse_log_line
  parse_log_line-Verdict line = elim (Bool-cases (is_skipped (trim_space line))) [
    | inl p ↦ rw (parse_log_line, p) (comment p)
    | inr p ↦ rw (parse_log_line, p) (entry_of_fields-Verdict line p)
  ]
