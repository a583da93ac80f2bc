-- ===== src/Mob/Skills/SkillId.antt =====
-- src/common/skills.h: the identifiers of skills, in the order of the enumeration.
use eqp.Common.{ℕ}

abbrev pub one_hand_blunt : ℕ
one_hand_blunt = 0

abbrev pub one_hand_slashing : ℕ
one_hand_slashing = 1

abbrev pub two_hand_blunt : ℕ
two_hand_blunt = 2

abbrev pub two_hand_slashing : ℕ
two_hand_slashing = 3

abbrev pub abjuration : ℕ
abjuration = 4

abbrev pub alteration : ℕ
alteration = 5

abbrev pub apply_poison : ℕ
apply_poison = 6

abbrev pub archery : ℕ
archery = 7

abbrev pub backstab : ℕ
backstab = 8

abbrev pub bind_wound : ℕ
bind_wound = 9

abbrev pub bash : ℕ
bash = 10

abbrev pub block : ℕ
block = 11

abbrev pub brass_instruments : ℕ
brass_instruments = 12

abbrev pub channeling : ℕ
channeling = 13

abbrev pub conjuration : ℕ
conjuration = 14

abbrev pub defense : ℕ
defense = 15

abbrev pub disarm : ℕ
disarm = 16

abbrev pub disarm_traps : ℕ
disarm_traps = 17

abbrev pub divination : ℕ
divination = 18

abbrev pub dodge : ℕ
dodge = 19

abbrev pub double_attack : ℕ
double_attack = 20

abbrev pub dragon_punch : ℕ
dragon_punch = 21

abbrev pub dual_wield : ℕ
dual_wield = 22

abbrev pub eagle_strike : ℕ
eagle_strike = 23

abbrev pub evocation : ℕ
evocation = 24

abbrev pub feign_death : ℕ
feign_death = 25

abbrev pub flying_kick : ℕ
flying_kick = 26

abbrev pub forage : ℕ
forage = 27

abbrev pub hand_to_hand : ℕ
hand_to_hand = 28

abbrev pub hide : ℕ
hide = 29

abbrev pub kick : ℕ
kick = 30

abbrev pub meditate : ℕ
meditate = 31

abbrev pub mend : ℕ
mend = 32

abbrev pub offense : ℕ
offense = 33

abbrev pub parry : ℕ
parry = 34

abbrev pub pick_lock : ℕ
pick_lock = 35

abbrev pub one_hand_piercing : ℕ
one_hand_piercing = 36

abbrev pub riposte : ℕ
riposte = 37

abbrev pub round_kick : ℕ
round_kick = 38

abbrev pub safe_fall : ℕ
safe_fall = 39

abbrev pub sense_heading : ℕ
sense_heading = 40

abbrev pub singing : ℕ
singing = 41

abbrev pub sneak : ℕ
sneak = 42

abbrev pub specialize_abjuration : ℕ
specialize_abjuration = 43

abbrev pub specialize_alteration : ℕ
specialize_alteration = 44

abbrev pub specialize_conjuration : ℕ
specialize_conjuration = 45

abbrev pub specialize_divination : ℕ
specialize_divination = 46

abbrev pub specialize_evocation : ℕ
specialize_evocation = 47

abbrev pub pick_pockets : ℕ
pick_pockets = 48

abbrev pub stringed_instruments : ℕ
stringed_instruments = 49

abbrev pub swimming : ℕ
swimming = 50

abbrev pub throwing : ℕ
throwing = 51

abbrev pub tiger_claw : ℕ
tiger_claw = 52

abbrev pub tracking : ℕ
tracking = 53

abbrev pub wind_instruments : ℕ
wind_instruments = 54

abbrev pub fishing : ℕ
fishing = 55

abbrev pub make_poison : ℕ
make_poison = 56

abbrev pub tinkering : ℕ
tinkering = 57

abbrev pub research : ℕ
research = 58

abbrev pub alchemy : ℕ
alchemy = 59

abbrev pub baking : ℕ
baking = 60

abbrev pub tailoring : ℕ
tailoring = 61

abbrev pub sense_traps : ℕ
sense_traps = 62

abbrev pub blacksmithing : ℕ
blacksmithing = 63

abbrev pub fletching : ℕ
fletching = 64

abbrev pub brewing : ℕ
brewing = 65

abbrev pub alcohol_tolerance : ℕ
alcohol_tolerance = 66

abbrev pub begging : ℕ
begging = 67

abbrev pub jewelry_making : ℕ
jewelry_making = 68

abbrev pub pottery : ℕ
pottery = 69

abbrev pub percussion_instruments : ℕ
percussion_instruments = 70

abbrev pub intimidation : ℕ
intimidation = 71

abbrev pub berserking : ℕ
berserking = 72

abbrev pub taunt : ℕ
taunt = 73

abbrev pub count : ℕ
count = 74
