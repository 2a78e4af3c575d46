-- ===== src/Operator/Settings.antt =====
-- The environment of main.go: how the variables that the reconciler is built from are read.
pub mod Ports
use dev_plane.Base.{
  ℕ, zero, suc, Bool, true, false, Option, none, some, List, [], ◌∷◌, ◌++◌, ◌&&◌, ◌||◌, ◌==◌, leb,
  ltb, not, all, is_empty, if◌then◌else◌,
}
use dev_plane.Base.Int.{ℤ, pos, negsuc, ltb_ℤ}
use dev_plane.Base.Text.{Text, lit, trim_space}
use dev_plane.Base.Text.Parse.{parse_int}
use dev_plane.Base.Result.{Result, ok, fail}
use dev_plane.Operator.Env.{Config}

-- A byte in front of the first part.
abbrev pub extend : ℕ → List Text → List Text
extend b [] = (b ∷ []) ∷ []
extend b (part ∷ parts) = (b ∷ part) ∷ parts

-- strings.Split(s, sep), for a separator of one byte, `sep` first.
unfoldable pub split : ℕ → Text → List Text
split sep [] = [] ∷ []
split sep (b ∷ s) = let rest = split sep s in if b == sep then [] ∷ rest else extend b rest

-- strconv.ParseInt(s, 10, 32), where an error is none.
unfoldable pub parse_int32 : Text → Option ℤ
parse_int32 s = parse_int 2147483648 s

-- The loop over the entries of LLM_NAMESPACES.
unfoldable pub trimmed_entries : List Text → List Text
trimmed_entries [] = []
trimmed_entries (e ∷ es) =
    let rest = trimmed_entries es in
    let ns = trim_space e in if is_empty ns then rest else ns ∷ rest

unfoldable pub llm_namespaces : Text → List Text
unfolding split trimmed_entries
llm_namespaces raw = if is_empty raw then [] else trimmed_entries (split b',' raw)

-- The loop over the entries of EGRESS_PORTS.
unfoldable pub parsed_ports : List Text → List ℤ
unfolding parse_int32
parsed_ports [] = []
parsed_ports (e ∷ es) =
    let rest = parsed_ports es in
    let raw = trim_space e in
    if is_empty raw then rest else elim (parse_int32 raw) [
      | none ↦ rest
      | some p ↦ if ltb_ℤ p (pos 1) || ltb_ℤ (pos 65535) p then rest else p ∷ rest
    ]

unfoldable pub egress_ports : Text → List ℤ
unfolding split parsed_ports
egress_ports raw = if is_empty raw then [] else parsed_ports (split b',' raw)

-- IDLE_TIMEOUT; `parse_duration` is time.ParseDuration.
unfoldable pub idle_timeout : (Text → Result ℤ) → Text → ℤ
idle_timeout parse_duration raw =
    if is_empty raw then pos 0 else elim (parse_duration raw) [ ok d ↦ d | fail err ↦ pos 0 ]

-- The reconciler that main builds, from the values of the environment variables.
unfoldable pub reconciler_config :
    (parse_duration : Text → Result ℤ)
    (workspace_image llm_raw ports_raw idle_raw gateway_namespace ca_bundle : Text)
    (pip_index_url pip_trusted_host npm_registry : Text)
    → Config
unfolding llm_namespaces egress_ports idle_timeout
reconciler_config parse_duration workspace_image llm_raw ports_raw idle_raw gateway_namespace
      ca_bundle pip_index_url pip_trusted_host npm_registry =
    record {
      workspace_image =
          if is_empty workspace_image then lit "workspace:latest" else workspace_image;
      llm_namespaces = llm_namespaces llm_raw;
      egress_ports = egress_ports ports_raw;
      idle_timeout = idle_timeout parse_duration idle_raw;
      gateway_namespace = gateway_namespace;
      default_ca_bundle = ca_bundle;
      pip_index_url = pip_index_url;
      pip_trusted_host = pip_trusted_host;
      npm_registry = npm_registry;
      recorder = true;
    }
