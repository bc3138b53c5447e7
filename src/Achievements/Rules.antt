-- ===== src/Achievements/Rules.antt =====
-- Some achievements that come with others, and some that exclude each other.
use ambatucode.Common.{◌≡◌, true, false, arith}
use ambatucode.Achievements.{
  SubmissionContext, SubmissionRule, strategic_sniper, optimizer, second_wind, speed_demon,
  marathoner, the_architect, test_whisperer, polyglot, full_spectrum, submission_rule,
}

abbrev pub Earns : SubmissionContext → SubmissionRule → Type 0
Earns c r = submission_rule r c ≡ true

-- Strategic sniper brings optimizer, test whisperer brings the architect, and full spectrum brings polyglot;
-- nobody is both a speed demon and a marathoner, or both a strategic sniper and on a second wind.
pub titles_agree :
    (c : SubmissionContext)
    → (Earns c strategic_sniper → Earns c optimizer)
      × (Earns c test_whisperer → Earns c the_architect)
      × (Earns c full_spectrum → Earns c polyglot)
      × (Earns c speed_demon → submission_rule marathoner c ≡ false)
      × (Earns c strategic_sniper → submission_rule second_wind c ≡ false)
unfolding submission_rule
titles_agree c = (
  λ h. ground (arith, h),
  λ h. ground (arith, h),
  λ h. ground (arith, h),
  λ h. ground (arith, h),
  λ h. ground (arith, h),
)
