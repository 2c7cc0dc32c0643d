-- ===== src/Registry/Build/Tests.antt =====
-- The accepted document, and what it is bound to.
use shortfall.Prelude.{◌≡◌, refl, some, codes, true, ◌=?◌}
use shortfall.Prelude.Maps.{find}
use shortfall.Engine.Realized.{member}
use shortfall.Registry.{stage_names, flow_of, value_stage}
use shortfall.Registry.Build.Ladder.{IsLadder, parse_doc-IsLadder}
use shortfall.Registry.Build.Stages.{value_stage-member}
use shortfall.Registry.Build.Blocks.{IsDue, parse_doc-IsDue}
use shortfall.Registry.Build.Example.{doc, flow, reg, hour, accepted}

found : flow_of reg (codes "checkout") ≡ some flow
unfolding flow_of find ◌=?◌
found = refl

parse_doc-IsLadder_example : IsLadder reg.severity
parse_doc-IsLadder_example = parse_doc-IsLadder doc reg accepted

value_stage-member_example : member (value_stage flow) (stage_names flow.stages) ≡ true
value_stage-member_example = value_stage-member doc reg (codes "checkout") flow accepted found

due : find (codes "capture") flow.sla ≡ some hour
unfolding find ◌=?◌
due = refl

parse_doc-IsDue_example : IsDue (stage_names flow.stages) (codes "capture") hour
parse_doc-IsDue_example =
    parse_doc-IsDue doc reg (codes "checkout") flow (codes "capture") hour accepted found due
