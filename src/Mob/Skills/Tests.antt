-- ===== src/Mob/Skills/Tests.antt =====
-- An Iksar necromancer.
use eqp.Common.{◌≡◌, replicate, get_or, arith}
use eqp.Mob.Skills.SkillId
use eqp.Mob.Skills.{Skills, init, class_necromancer, race_iksar}
use eqp.Mob.Skills.Laws.{IsSized, init_lem}

abbrev fresh : Skills
fresh = record { skill = replicate 74 0; language = replicate 24 0 }

fresh-IsSized : IsSized fresh
fresh-IsSized = omega arith

init_example : get_or (init class_necromancer 1 race_iksar fresh).skill SkillId.swimming 0 ≡ 100
init_example = init_lem class_necromancer 1 race_iksar fresh SkillId.swimming fresh-IsSized
