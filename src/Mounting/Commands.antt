-- ===== src/Mounting/Commands.antt =====
-- core/src/kernel/discovery.ts, mount: the dispatcher of the commands of all cubes. What a command
-- does is a parameter.
pub mod Dispatch
use qwbe.Prelude.{
  or_this, ℕ, String, Bool, true, false, not, ◌&&◌, Option, none, some, or_else, List, [], ◌∷◌,
  ◌==◌, filter, map, contains, length, ltb, if◌then◌else◌,
}
use qwbe.Mounting.Names.{command_owner}
use qwbe.Mounting.Manifest.{CommandSpec}

-- `CommandInfo`
pub record CommandInfo : Type 0 where
  pub name : String
  pub summary : String
  pub permission : String
  pub max_args : ℕ

-- `CommandRefusal`, or the output of the command and whether it succeeded.
pub data Invoked : Type 0 where
  unknown_command : Invoked
  not_allowed : String → Invoked
  too_many_args : ℕ → ℕ → Invoked
  ran : String → Bool → Invoked

-- `liveSpecs`: the commands of the cubes that are enabled
unfoldable pub live_specs : (String → Bool) → List CommandSpec → List CommandSpec
live_specs is_enabled commands =
    filter (λ (c : CommandSpec). is_enabled (command_owner c.name)) commands

-- `commands`
unfoldable pub command_infos : (String → Bool) → List CommandSpec → List CommandInfo
unfolding live_specs
command_infos is_enabled commands =
    map
      (λ (c : CommandSpec).
        let info : CommandInfo = record {
          name = c.name;
          summary = c.summary;
          permission = c.permission;
          max_args = or_else c.max_args 0;
        } in
        info)
      (live_specs is_enabled commands)

-- `table.get(name)`: the last of a name is in the Map
unfoldable pub command_named : String → List CommandSpec → Option CommandSpec
command_named name [] = none
command_named name (c ∷ cs) =
    or_this (command_named name cs) (if c.name == name then some c else none)

module _ {W : Type 0} (run : CommandSpec → List String → List String → W → W × String × Bool) where
  abbrev pub answered : W × String × Bool → Invoked × W
  answered (w, output, succeeded) = (ran output succeeded, w)

  abbrev pub run_checked : Option CommandSpec → List String → List String → W → Invoked × W
  run_checked none args permissions w = (unknown_command, w)
  run_checked (some c) args permissions w =
      if not (contains permissions c.permission)
      then (not_allowed c.permission, w)
      else if ltb (or_else c.max_args 0) (length args)
      then (too_many_args (or_else c.max_args 0) (length args), w)
      else answered (run c args permissions w)

  -- `runner.invoke`
  unfoldable pub invoke :
      (String → Bool) → List CommandSpec → String → List String → List String → W → Invoked × W
  unfolding live_specs
  invoke is_enabled commands name args permissions w =
      run_checked (command_named name (live_specs is_enabled commands)) args permissions w
