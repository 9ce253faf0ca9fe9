-- ===== src/Dns/Configs/Named.antt =====
-- services/dns-service/viswall_dns_agent/agent.py: what `write_configs` leaves in the files of named.
use viswall.Prelude.{
  Bool, true, false, ◌≡◌, refl, ap, ◌∙◌, Option, none, some, List, [], ◌∷◌, String, if◌then◌else◌,
  str_eq,
}
use viswall.Prelude.Texts.{concat}
use viswall.Dns.Render.{
  TsigKey, Zone, ServerConfig, Python, render_zone_text, render_options_text, render_zone_block,
  render_local_text,
}
use viswall.Dns.Configs.{
  Files, Write, whole, broken, Paths, End, ended, bad_zone, not_written, key_name, left_over, write,
  write_options, write_local, if_written, both, write_zone_file, write_signed_zone_file, file_of,
  write_files, add_block, go_on, zone_blocks, done, finish, write_configs,
}

module _ (py : Python) (paths : Paths) where
  -- The files of named did not change.
  abbrev pub IsNamed : (before after : Files) → Type 0
  IsNamed before after = (after.options ≡ before.options) × (after.local ≡ before.local)

  -- The write of some file raises.
  abbrev pub Breaks : Type 0
  Breaks =
      (f : Files) × (path : String) × (left : Option String) × (paths.disk f path ≡ broken left)

  abbrev Wrote : Files → Bool × Files → Type 0
  Wrote before (true, after) = IsNamed before after
  Wrote before (false, after) = Breaks × IsNamed before after

  write-Wrote :
      (w : Write) (path text : String) (f : Files)
      → paths.disk f path ≡ w
      → Wrote f (write w path text f)
  write-Wrote whole path text f h = (refl, refl)
  write-Wrote (broken none) path text f h = ((f, path, none, h), (refl, refl))
  write-Wrote (broken (some left)) path text f h = ((f, path, some left, h), (refl, refl))

  both-Wrote :
      (f : Files) (r : Bool × Files) (next : Files → Bool × Files)
      → Wrote f r
      → ((g : Files) → Wrote g (next g))
      → Wrote f (both r next)
  both-Wrote f (false, g) next w k = w
  both-Wrote f (true, g) next w k = trans (next g) (k g)
    where
      trans : (r : Bool × Files) → Wrote g r → Wrote f r
      trans (true, h) (o, l) = (o ∙ w.0, l ∙ w.1)
      trans (false, h) (b, (o, l)) = (b, (o ∙ w.0, l ∙ w.1))

  if-Wrote :
      (f : Files) (b : Bool) (on off : Bool × Files)
      → Wrote f on
      → Wrote f off
      → Wrote f (if b then on else off)
  if-Wrote f true on off h k = h
  if-Wrote f false on off h k = k

  write_files-Wrote : (z : Zone) (f : Files) → Wrote f (write_files py paths z f)
  unfolding write_zone_file write_signed_zone_file
  write_files-Wrote z f =
      let plain =
        write-Wrote (paths.disk f (paths.zone_file z)) (paths.zone_file z)
          (render_zone_text py z false) f refl in
      let signed = λ (g : Files).
        write-Wrote (paths.disk g (paths.signed_file z)) (paths.signed_file z)
          (concat (render_zone_text py z true ∷ paths.signature (render_zone_text py z true) ∷ []))
          g refl in
      let all_written =
        both-Wrote f (write_zone_file py paths z f) (write_signed_zone_file py paths z) plain
          signed in
      if-Wrote f (str_eq z.zone_type "slave") (true, f) _ (refl, refl)
        (if-Wrote f z.dnssec_enabled _ (write_zone_file py paths z f) all_written plain)

  -- The statements of the enabled zones, in their order, if each can be rendered.
  abbrev add_statement : Option String → Option (List String) → Option (List String)
  add_statement none rest = none
  add_statement (some block) none = none
  add_statement (some block) (some blocks) = some (block ∷ blocks)

  abbrev pub statements : List TsigKey → List Zone → Option (List String)
  statements keys [] = some []
  statements keys (z ∷ zones) =
      let rest = statements keys zones in
      if z.enabled
      then add_statement
          (render_zone_block z (file_of py paths z) (key_name keys z.transfer_tsig_key_id)) rest
      else rest

  -- An end of the loop, where the statements are these.
  abbrev Result : Option (List String) → Files → End (List String) × Files → Type 0
  Result all before (ended blocks, after) = (all ≡ some blocks) × IsNamed before after
  Result all before (bad_zone, after) = (all ≡ none) × IsNamed before after
  Result all before (not_written, after) = Breaks × IsNamed before after

  go_on-Result :
      (block : Option String) (rest : Option (List String)) (before f : Files)
      (next : Files → End (List String) × Files)
      → IsNamed before f
      → Result rest f (next f)
      → Result (add_statement block rest) before (go_on py paths block next f)
  go_on-Result none rest before f next named h = (refl, named)
  go_on-Result (some block) rest before f next named h = added (next f) h
    where
      added :
          (r : End (List String) × Files)
          → Result rest f r
          → Result (add_statement (some block) rest) before (add_block py paths block r)
      added (ended blocks, g) (e, (o, l)) =
          (ap (add_statement (some block)) e, (o ∙ named.0, l ∙ named.1))
      added (bad_zone, g) (e, (o, l)) =
          (ap (add_statement (some block)) e, (o ∙ named.0, l ∙ named.1))
      added (not_written, g) (b, (o, l)) = (b, (o ∙ named.0, l ∙ named.1))

  if_written-Result :
      (block : Option String) (rest : Option (List String)) (before : Files) (w : Bool × Files)
      (next : Files → End (List String) × Files)
      → Wrote before w
      → ((g : Files) → Result rest g (next g))
      → Result (add_statement block rest) before (if_written w (go_on py paths block next))
  if_written-Result block rest before (false, f) next wrote h = wrote
  if_written-Result block rest before (true, f) next wrote h =
      go_on-Result block rest before f next wrote (h f)

  if-Result :
      (f : Files) (b : Bool) (on off : End (List String) × Files) (all rest : Option (List String))
      → Result all f on
      → Result rest f off
      → Result (if b then all else rest) f (if b then on else off)
  if-Result f true on off all rest h k = h
  if-Result f false on off all rest h k = k

  zone_blocks-Result :
      (keys : List TsigKey) (zones : List Zone) (f : Files)
      → Result (statements keys zones) f (zone_blocks py paths keys zones f)
  unfolding zone_blocks
  zone_blocks-Result keys [] f = (refl, (refl, refl))
  zone_blocks-Result keys (z ∷ zones) f =
      let block = render_zone_block z (file_of py paths z) (key_name keys z.transfer_tsig_key_id) in
      if-Result f z.enabled
        (if_written (write_files py paths z f)
          (go_on py paths block (zone_blocks py paths keys zones)))
        (zone_blocks py paths keys zones f) (add_statement block (statements keys zones))
        (statements keys zones)
        (if_written-Result block (statements keys zones) f (write_files py paths z f)
          (zone_blocks py paths keys zones) (write_files-Wrote z f) (zone_blocks-Result keys zones))
        (zone_blocks-Result keys zones f)

-- Where the exception of a write leaves the files of named.
pub data Stopped (py : Python) (paths : Paths) (c : ServerConfig) (before : Files)
    : Files → Type 0 where
  at_zone_file :
      {after : Files}
      → Breaks py paths
      → after.options ≡ before.options
      → after.local ≡ before.local
      → Stopped py paths c before after
  at_options :
      {f after : Files} (blocks : List String) (left : Option String)
      → statements py paths c.tsig_keys c.zones ≡ some blocks
      → paths.disk f paths.options_file ≡ broken left
      → after.options ≡ left_over before.options left
      → after.local ≡ before.local
      → Stopped py paths c before after
  at_local :
      {f after : Files} (blocks : List String) (left : Option String)
      → statements py paths c.tsig_keys c.zones ≡ some blocks
      → paths.disk f paths.local_file ≡ broken left
      → after.options ≡ some (render_options_text py c)
      → after.local ≡ left_over before.local left
      → Stopped py paths c before after

-- What an end of `write_configs` says of the files of named.
abbrev pub Written : Python → Paths → ServerConfig → Files → End Unit × Files → Type 0
Written py paths c before (bad_zone, after) =
    (statements py paths c.tsig_keys c.zones ≡ none)
    × (after.options ≡ before.options)
    × (after.local ≡ before.local)
Written py paths c before (not_written, after) = Stopped py paths c before after
Written py paths c before (ended u, after) =
    (blocks : List String) × (statements py paths c.tsig_keys c.zones ≡ some blocks)
    × (after.options ≡ some (render_options_text py c))
    × (after.local ≡ some (render_local_text c blocks))

module _ (py : Python) (paths : Paths) (c : ServerConfig) (before : Files) where
  abbrev all : Option (List String)
  all = statements py paths c.tsig_keys c.zones

  local-Written :
      (w : Write) (blocks : List String) (f : Files)
      → all ≡ some blocks
      → paths.disk f paths.local_file ≡ w
      → f.options ≡ some (render_options_text py c)
      → f.local ≡ before.local
      → Written py paths c before
          (if_written (write_local w (render_local_text c blocks) f) (done py paths))
  local-Written whole blocks f e h o l = (blocks, e, o, refl)
  local-Written (broken left) blocks f e h o l =
      at_local blocks left e h o (ap (λ x. left_over x left) l)

  options-Written :
      (w : Write) (blocks : List String) (f : Files)
      → all ≡ some blocks
      → paths.disk f paths.options_file ≡ w
      → IsNamed py paths before f
      → Written py paths c before (
          if_written (write_options w (render_options_text py c) f) (λ g.
            if_written
              (write_local (paths.disk g paths.local_file) (render_local_text c blocks) g)
              (done py paths)))
  options-Written whole blocks f e h named =
      let g : Files = record f { options = some (render_options_text py c) } in
      local-Written (paths.disk g paths.local_file) blocks g e refl refl named.1
  options-Written (broken left) blocks f e h named =
      at_options blocks left e h (ap (λ x. left_over x left) named.0) named.1

  finish-Written :
      (r : End (List String) × Files)
      → Result py paths all before r
      → Written py paths c before (finish py paths c r)
  finish-Written (bad_zone, f) (e, k) = (e, k.0, k.1)
  finish-Written (not_written, f) (b, k) = at_zone_file b k.0 k.1
  finish-Written (ended blocks, f) (e, k) =
      options-Written (paths.disk f paths.options_file) blocks f e refl k

-- Where write_configs returns, each enabled zone can be rendered, and the files of named hold the options and the
-- statements of the enabled zones, in their order. The ValueError of an enabled zone that cannot be rendered leaves
-- both files as they were. A write that raises leaves both as they were at the file of a zone; at the file of the
-- options what the write left in it; and at the other file the new options, with what the write left in the other.
pub write_configs-Written :
    (py : Python) (paths : Paths) (c : ServerConfig) (before : Files)
    → Written py paths c before (write_configs py paths c before)
unfolding write_configs
write_configs-Written py paths c before =
    finish-Written py paths c before (zone_blocks py paths c.tsig_keys c.zones before)
      (zone_blocks-Result py paths c.tsig_keys c.zones before)
