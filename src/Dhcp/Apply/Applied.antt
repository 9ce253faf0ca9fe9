-- ===== src/Dhcp/Apply/Applied.antt =====
-- services/dhcp-service/dhcp_agent.py: how `apply_config` ends, and what it leaves behind.
use viswall.Prelude.{
  Bool, true, false, ◌&&◌, ◌≡◌, refl, sym, subst, ap, ◌∙◌, Option, none, some, List, [], ◌∷◌, ◌++◌,
  String, if◌then◌else◌, select,
}
use mathlib.Core.List.{append_assoc, append-nil}
use viswall.Prelude.Json.{Value}
use viswall.Dhcp.Payloads.{ServerConfig, is_empty}
use viswall.Dhcp.Render.{render_dhcp6_config}
use viswall.Dhcp.Apply.{
  Argv, CommandResult, Host, Exit, value, value_error, os_error, http_error, Agent, has_failed,
  after, run_all, text4, json_text, test4, test6, when, restarts, raise_any, checked, test_dhcp4,
  written6, test_dhcp6, restart_all, apply_config,
}
use viswall.Dhcp.Apply.Ran.{
  clean, clean-append, all_zero, permitted, Stopped, all_zero-append, Ran, run_all_lem,
  permitted_none,
}

module _ (agent : Agent) where
  -- The state of an apply after the commands that were due so far.
  record Progress (before : List Argv) (due : List Argv) (results : List CommandResult)
      (dhcp4 dhcp6 : Option String) (h : Host) : Type 0 where
    now : h.ran ≡ before ++ due
    same : clean results ≡ all_zero agent before due
    file4 : h.dhcp4 ≡ dhcp4
    file6 : h.dhcp6 ≡ dhcp6

  more-Progress :
      {before due : List Argv} (later : List Argv) {rs : List CommandResult}
      (ss : List CommandResult) {dhcp4 dhcp6 : Option String} {h w h' : Host}
      → Progress before due rs dhcp4 dhcp6 h
      → w.ran ≡ h.ran
      → Ran agent later w (value ss, h')
      → Progress before (due ++ later) (rs ++ ss) w.dhcp4 w.dhcp6 h'
  more-Progress {before} {due} later {rs} ss p kept (now, same, file4, file6) = record {
    now = now ∙ (ap (λ (r : List Argv). r ++ later) (kept ∙ p.now) ∙ append_assoc before due later);
    same =
        clean-append rs ss
        ∙ (ap (λ (b : Bool). b && clean ss) p.same
            ∙ (ap (λ (b : Bool). all_zero agent before due && b)
                  (same ∙ ap (λ (r : List Argv). all_zero agent r later) (kept ∙ p.now))
                ∙ sym (all_zero-append agent before due later)));
    file4 = file4;
    file6 = file6;
  }

  more-Stopped :
      {before due : List Argv} (later : List Argv) {rs : List CommandResult}
      {dhcp4 dhcp6 : Option String} {h : Host} {now : List Argv}
      → Progress before due rs dhcp4 dhcp6 h
      → Stopped agent h.ran later now
      → Stopped agent before (due ++ later) now
  more-Stopped {before} {due} later p (done, args, rest, split, now, no_start) = (
    due ++ done,
    args,
    rest,
    ap (λ (cs : List Argv). due ++ cs) split ∙ sym (append_assoc due done (args ∷ rest)),
    now ∙ (ap (λ (r : List Argv). r ++ done) p.now ∙ append_assoc before due done),
    no_start,
  )

  Stopped-append :
      (before due later : List Argv) {now : List Argv}
      → Stopped agent before due now
      → Stopped agent before (due ++ later) now
  Stopped-append before due later (done, args, rest, split, now, no_start) = (
    done,
    args,
    rest ++ later,
    ap (λ (cs : List Argv). cs ++ later) split ∙ append_assoc done (args ∷ rest) later,
    now,
    no_start,
  )

  module _ (c : ServerConfig) (before : Host) where
    abbrev due4 : List Argv
    due4 = permitted agent (when agent c.dhcpv4_enabled (test4 agent))

    abbrev due6 : List Argv
    due6 = permitted agent (when agent c.dhcpv6_enabled (test6 agent))

    -- The commands of an apply.
    abbrev pub planned : List Argv
    planned = due4 ++ due6 ++ permitted agent (restarts agent c)

    abbrev pub file4 : Bool → Option String
    file4 true = some (text4 agent c)
    file4 false = before.dhcp4

    abbrev rendered6 : Option Value
    rendered6 = render_dhcp6_config agent.ip_network agent.leases6 c

    -- The file of the second server, where it is enabled or not.
    abbrev pub Document6 : Bool → Option String → Type 0
    Document6 true now = (v : Value) × (rendered6 ≡ some v) × (now ≡ some (json_text agent v))
    Document6 false now = now ≡ before.dhcp6

    -- The files were replaced and each command ran, and whether they all exited with 0.
    abbrev pub Complete : Bool → Host → Type 0
    Complete all h =
        (h.ran ≡ before.ran ++ planned)
        × (all_zero agent before.ran planned ≡ all)
        × (h.dhcp4 ≡ file4 c.dhcpv4_enabled)
        × Document6 c.dhcpv6_enabled h.dhcp6

    abbrev pub Applied : Exit (List CommandResult) × Host → Type 0
    Applied (value results, h) = Complete true h
    Applied (http_error failed, h) = Complete false h
    Applied (value_error, h) =
        (c.dhcpv6_enabled ≡ true)
        × (rendered6 ≡ none)
        × (h.ran ≡ before.ran ++ due4)
        × (h.dhcp4 ≡ file4 c.dhcpv4_enabled)
        × (h.dhcp6 ≡ before.dhcp6)
    Applied (os_error, h) = Stopped agent before.ran planned h.ran

    checked-Applied :
        (failed results : List CommandResult) (dhcp6 : Option String) (h : Host)
        → select has_failed results ≡ failed
        → Progress before.ran planned results (file4 c.dhcpv4_enabled) dhcp6 h
        → Document6 c.dhcpv6_enabled dhcp6
        → Applied (raise_any agent failed results h)
    checked-Applied [] results dhcp6 h e p d = (
      p.now,
      sym p.same ∙ ap is_empty e,
      p.file4,
      subst (Document6 c.dhcpv6_enabled) (sym p.file6) d,
    )
    checked-Applied (f ∷ fs) results dhcp6 h e p d = (
      p.now,
      sym p.same ∙ ap is_empty e,
      p.file4,
      subst (Document6 c.dhcpv6_enabled) (sym p.file6) d,
    )

    restart_all-Ran :
        (h : Host) → Ran agent (permitted agent (restarts agent c)) h (restart_all agent c h)
    restart_all-Ran h = chosen agent.allow_commands refl
      where
        chosen :
            (b : Bool)
            → agent.allow_commands ≡ b
            → Ran agent
                (permitted agent (restarts agent c))
                h
                (if b then run_all agent (restarts agent c) h else (value [], h))
        chosen true e = run_all_lem agent (restarts agent c) h
        chosen false e =
            subst (λ due. Ran agent due h (value [], h))
              (sym (permitted_none agent (restarts agent c) e))
              (sym (append-nil h.ran), refl, refl, refl)

    last-Applied :
        (rs : List CommandResult) (dhcp6 : Option String) (h : Host)
        (r : Exit (List CommandResult) × Host)
        → Progress before.ran (due4 ++ due6) rs (file4 c.dhcpv4_enabled) dhcp6 h
        → Document6 c.dhcpv6_enabled dhcp6
        → Ran agent (permitted agent (restarts agent c)) h r
        → Applied (after r λ ss. checked agent (rs ++ ss))
    last-Applied rs dhcp6 h (value ss, h') p d r =
        let q = more-Progress (permitted agent (restarts agent c)) ss p refl r in
        checked-Applied (select has_failed (rs ++ ss)) (rs ++ ss) h.dhcp6 h' refl
          (record { now = q.now; same = q.same; file4 = q.file4 ∙ p.file4; file6 = q.file6 })
          (subst (Document6 c.dhcpv6_enabled) (sym p.file6) d)
    last-Applied rs dhcp6 h (os_error, h') p d r =
        more-Stopped (permitted agent (restarts agent c)) p r
    last-Applied rs dhcp6 h (value_error, h') p d r = absurd r
    last-Applied rs dhcp6 h (http_error failed, h') p d r = absurd r

    -- What the test of the second server leaves, where it is enabled or not.
    abbrev Tested6 : Bool → Host → Exit (List CommandResult) × Host → Type 0
    Tested6 enabled h (value ss, h') =
        (w : Host) × (w.ran ≡ h.ran)
        × (w.dhcp4 ≡ h.dhcp4)
        × (h.dhcp6 ≡ before.dhcp6 → Document6 enabled w.dhcp6)
        × Ran agent (permitted agent (when agent enabled (test6 agent))) w (value ss, h')
    Tested6 enabled h (os_error, h') =
        Stopped agent h.ran (permitted agent (when agent enabled (test6 agent))) h'.ran
    Tested6 enabled h (value_error, h') = (enabled ≡ true) × (rendered6 ≡ none) × (h' ≡ h)
    Tested6 enabled h (http_error failed, h') = ⊥

    Ran-Tested6 :
        (enabled : Bool) (h w : Host) (r : Exit (List CommandResult) × Host)
        → w.ran ≡ h.ran
        → w.dhcp4 ≡ h.dhcp4
        → (h.dhcp6 ≡ before.dhcp6 → Document6 enabled w.dhcp6)
        → Ran agent (permitted agent (when agent enabled (test6 agent))) w r
        → Tested6 enabled h r
    Ran-Tested6 enabled h w (value ss, h') same file4 d r = (w, same, file4, d, r)
    Ran-Tested6 enabled h w (os_error, h') same file4 d r =
        subst (λ ran. Stopped agent ran (permitted agent (when agent enabled (test6 agent))) h'.ran)
          same r
    Ran-Tested6 enabled h w (value_error, h') same file4 d r = absurd r
    Ran-Tested6 enabled h w (http_error failed, h') same file4 d r = r

    written6-Tested6 :
        (o : Option Value) (h : Host) → rendered6 ≡ o → Tested6 true h (written6 agent o h)
    written6-Tested6 none h e = (refl, e, refl)
    written6-Tested6 (some v) h e =
        let w = record h { dhcp6 = some (json_text agent v) } in
        Ran-Tested6 true h w (run_all agent (test6 agent ∷ []) w) refl refl (λ old. (v, e, refl))
          (run_all_lem agent (test6 agent ∷ []) w)

    test_dhcp6-Tested6 :
        (enabled : Bool) (h : Host) → Tested6 enabled h (test_dhcp6 agent c enabled h)
    unfolding run_all
    test_dhcp6-Tested6 true h = written6-Tested6 rendered6 h refl
    test_dhcp6-Tested6 false h =
        Ran-Tested6 false h h (value [], h) refl refl (λ old. old) (run_all_lem agent [] h)

    second-Applied :
        (rs : List CommandResult) (h : Host) (r : Exit (List CommandResult) × Host)
        → Progress before.ran due4 rs (file4 c.dhcpv4_enabled) before.dhcp6 h
        → Tested6 c.dhcpv6_enabled h r
        → Applied
            (after r λ ss h2. after (restart_all agent c h2) λ ts. checked agent (rs ++ ss ++ ts))
    second-Applied rs h (value ss, h') p (w, same, file4, d, r) =
        let q = more-Progress due6 ss p same r in
        last-Applied (rs ++ ss) w.dhcp6 h' (restart_all agent c h')
          (record {
            now = q.now;
            same = q.same;
            file4 = q.file4 ∙ (file4 ∙ p.file4);
            file6 = q.file6;
          })
          (d p.file6) (restart_all-Ran h')
    second-Applied rs h (os_error, h') p s =
        Stopped-append before.ran (due4 ++ due6) (permitted agent (restarts agent c))
          (more-Stopped due6 p s)
    second-Applied rs h (value_error, h') p (enabled, unknown, same) = (
      enabled,
      unknown,
      ap (λ (x : Host). x.ran) same ∙ p.now,
      ap (λ (x : Host). x.dhcp4) same ∙ p.file4,
      ap (λ (x : Host). x.dhcp6) same ∙ p.file6,
    )
    second-Applied rs h (http_error failed, h') p r = absurd r

    abbrev written4 : Bool → Host
    written4 true = record before { dhcp4 = some (text4 agent c) }
    written4 false = before

    test_dhcp4-Ran :
        (enabled : Bool)
        → Ran agent
            (permitted agent (when agent enabled (test4 agent)))
            (written4 enabled)
            (test_dhcp4 agent c enabled before)
    unfolding run_all
    test_dhcp4-Ran true = run_all_lem agent (test4 agent ∷ []) (written4 true)
    test_dhcp4-Ran false = run_all_lem agent [] before

    written4_lem :
        (enabled : Bool)
        → ((written4 enabled).ran ≡ before.ran)
          × ((written4 enabled).dhcp4 ≡ file4 enabled)
          × ((written4 enabled).dhcp6 ≡ before.dhcp6)
    written4_lem true = (refl, refl, refl)
    written4_lem false = (refl, refl, refl)

    first-Applied :
        (r : Exit (List CommandResult) × Host)
        → Ran agent due4 (written4 c.dhcpv4_enabled) r
        → Applied (
            after r λ rs h1.
              after
                (test_dhcp6 agent c c.dhcpv6_enabled h1)
                λ ss h2. after (restart_all agent c h2) λ ts. checked agent (rs ++ ss ++ ts))
    first-Applied (value rs, h) (now, same, file4, file6) =
        let (old, new4, old6) = written4_lem c.dhcpv4_enabled in
        second-Applied rs h (test_dhcp6 agent c c.dhcpv6_enabled h)
          (record {
            now = now ∙ ap (λ (b : List Argv). b ++ due4) old;
            same = same ∙ ap (λ (b : List Argv). all_zero agent b due4) old;
            file4 = file4 ∙ new4;
            file6 = file6 ∙ old6;
          })
          (test_dhcp6-Tested6 c.dhcpv6_enabled h)
    first-Applied (os_error, h) s =
        Stopped-append before.ran (due4 ++ due6) (permitted agent (restarts agent c)) (
          Stopped-append before.ran due4 due6
            (subst (λ b. Stopped agent b due4 h.ran) (written4_lem c.dhcpv4_enabled).0 s))
    first-Applied (value_error, h) r = absurd r
    first-Applied (http_error failed, h) r = absurd r

-- An apply that returns has replaced the files and run every command that may run (the tests of the enabled servers,
-- then the restarts), and each exited with 0. One that reports failed commands has replaced the files and run all of
-- them too, restarts included, and not all exited with 0. A network of the second server that cannot be read raises
-- with the first server's file replaced, if that is enabled, and no restart; a command that cannot be started ends the
-- sequence.
pub apply_config-Applied :
    (agent : Agent) (c : ServerConfig) (before : Host)
    → Applied agent c before (apply_config agent c before)
unfolding apply_config
apply_config-Applied agent c before =
    first-Applied agent c before (test_dhcp4 agent c c.dhcpv4_enabled before)
      (test_dhcp4-Ran agent c before c.dhcpv4_enabled)
