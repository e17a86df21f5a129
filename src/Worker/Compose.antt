-- ===== src/Worker/Compose.antt =====
-- composeResources and configuredResources of cmd/worker/resources.go: the limits in a site's Compose
-- file.
use panel4wp.Prelude.{
  ◌≡◌, refl, inl, inr, ◌⊎◌, ℕ, ◌+◌, Bool, not, ◌&&◌, ◌||◌, Option, none, some, List, [], ◌∷◌, ◌++◌,
  if◌then◌else◌, ◌==◌, nat_eq, text_eq, Text, codes, Result, ok, err, has_prefix, has_suffix,
  trim_suffix, split, join, map_err, ◌>>=◌, ◌>>◌, fail_if, ok_or,
}
use panel4wp.Prelude.Int.{pos, int_eq}
use panel4wp.Float.{Float, const, eq_f}
use panel4wp.Strings.Space.{trim_space, fields}
use panel4wp.Strings.Decimal.{atoi, format_int}
use panel4wp.Files.{File, missing, unreadable, content}
use panel4wp.Core.Ids.{valid_id}
use panel4wp.Core.Model.{Resources}
use panel4wp.Core.Validate.{Invalid, validate_resources}

-- strconv.ParseFloat, and fmt.Sprintf with the verb %.2f.
pub record FloatText : Type 0 where
  pub parse : Text → Option Float
  pub print : Float → Text

pub data ComposeError : Type 0 where
  bad_memory_limit bad_cpu_limit not_once not_alike : ComposeError
  not_in_range : Invalid → ComposeError

-- The limits of one service so far, and how often each was seen.
pub record Seen : Type 0 where
  pub limits : Resources
  pub memories : ℕ
  pub cpus : ℕ

abbrev pub unseen : Seen
unseen = record { limits = record { memory_mb = pos 0; cpus = const 0 }; memories = 0; cpus = 0 }

-- The maps `values` and `counts`, for the two services.
pub record Services : Type 0 where
  pub wordpress : Seen
  pub db : Seen

-- The section of a line, after the one before it.
unfoldable pub compose_section : Text → Text → Text
compose_section line section =
    let opened =
      if has_prefix line (codes "  ")
        && not (has_prefix line (codes "   "))
        && has_suffix line (codes ":")
      then trim_space (trim_suffix line (codes ":"))
      else section in
    if not (line == []) && not (has_prefix line (codes " ")) then [] else opened

abbrev pub service : Text → Services → Seen
service section s = if section == codes "wordpress" then s.wordpress else s.db

abbrev pub set_service : Text → Seen → Services → Services
set_service section seen s =
    if section == codes "wordpress" then record s { wordpress = seen } else record s { db = seen }

-- A line with a new limit, or as it was.
abbrev replaced : Option Resources → (Resources → Text) → Text → Text
replaced none make line = line
replaced (some r) make line = make r

abbrev pub memory_line : Resources → Text
memory_line r = codes "    mem_limit: " ++ (format_int r.memory_mb ++ codes "m")

abbrev pub cpu_line : FloatText → Resources → Text
cpu_line t r = codes "    cpus: " ++ t.print r.cpus

-- A line `mem_limit: VALUE`
unfoldable pub take_memory :
    Option Resources → Text → Text → Seen → Result ComposeError (Seen × Text)
take_memory new value line seen =
    ok_or (atoi (trim_suffix value (codes "m"))) bad_memory_limit >>= λ m.
    fail_if (not (has_suffix value (codes "m"))) bad_memory_limit
    >> ok (
      record {
        limits = record seen.limits { memory_mb = m };
        memories = seen.memories + 1;
        cpus = seen.cpus;
      },
      replaced new memory_line line,
    )

-- A line `cpus: VALUE`
unfoldable pub take_cpus :
    FloatText → Option Resources → Text → Text → Seen → Result ComposeError (Seen × Text)
take_cpus t new value line seen = ok_or (t.parse value) bad_cpu_limit >>= λ c. ok (
  record {
    limits = record seen.limits { cpus = c };
    memories = seen.memories;
    cpus = seen.cpus + 1;
  },
  replaced new (cpu_line t) line,
)

-- A line of a service, by its fields.
unfoldable pub take_line :
    FloatText → Option Resources → List Text → Text → Seen → Result ComposeError (Seen × Text)
unfolding take_memory take_cpus
take_line t new (key ∷ value ∷ []) line seen =
    if key == codes "mem_limit:"
    then take_memory new value line seen
    else if key == codes "cpus:"
    then take_cpus t new value line seen
    else ok (seen, line)
take_line t new _ line seen = ok (seen, line)

-- The loop over the lines.
unfoldable pub compose_lines :
    FloatText
    → Option Resources
    → Text
    → Services
    → List Text
    → Result ComposeError (Services × List Text)
unfolding compose_section take_line
compose_lines t new section s [] = ok (s, [])
compose_lines t new section s (line ∷ rest) =
    let now = compose_section line section in
    let skip : Result ComposeError (Services × List Text) =
      compose_lines t new now s rest >>= λ r. ok (r.0, line ∷ r.1) in
    let take : Result ComposeError (Services × List Text) =
      take_line t new (fields line) line (service now s) >>= λ taken.
      compose_lines t new now (set_service now taken.0 s) rest >>= λ r. ok (r.0, taken.1 ∷ r.1) in
    if not (now == codes "wordpress") && not (now == codes "db") then skip else take

abbrev pub once : Seen → Bool
once s = s.memories == 1 && s.cpus == 1

abbrev pub alike : Resources → Resources → Bool
alike a b = a.memory_mb == b.memory_mb && eq_f a.cpus b.cpus

-- composeResources: the limits, and the text with the replacement.
unfoldable pub compose_resources :
    FloatText → Text → Option Resources → Result ComposeError (Resources × Text)
unfolding compose_lines
compose_resources t data' new =
    compose_lines t new [] (record { wordpress = unseen; db = unseen }) (split b'\n' data')
    >>= λ walked.
        let s = walked.0 in
        fail_if (not (once s.wordpress) || not (once s.db)) not_once
        >> (fail_if (not (alike s.wordpress.limits s.db.limits)) not_alike
            >> (map_err not_in_range (validate_resources s.wordpress.limits)
                >> ok (s.wordpress.limits, join b'\n' walked.1)))

pub data Configured : Type 0 where
  no_file unusable : Configured
  configured : Resources → Configured

-- configuredResources, on the Compose file of a site; only a missing file is told apart from other errors.
unfoldable pub configured_resources : FloatText → Text → File → Configured
configured_resources t id f =
    let read : Configured = elim f [
      | missing ↦ no_file
      | unreadable ↦ unusable
      | content text ↦ elim (compose_resources t text none) [
        | err e ↦ unusable
        | ok (r, same) ↦ configured r
      ]
    ] in
    if valid_id id then read else unusable

pub Configured-cases :
    (f : Configured) → ((f ≡ unusable) ⊎ (f ≡ no_file)) ⊎ ((r : Resources) × (f ≡ configured r))
Configured-cases unusable = inl (inl refl)
Configured-cases no_file = inl (inr refl)
Configured-cases (configured r) = inr (r, refl)
