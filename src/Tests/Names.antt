-- ===== src/Tests/Names.antt =====
-- The theorems on names: case mapping and hostmask patterns.
use ircat.Base.{◌≡◌, refl, ◌↔◌, true, false, none, some, all, codes}
use ircat.State.Casemap.{rfc1459, equal}
use ircat.State.Glob.{scan, fuel, glob_match}
use ircat.State.Glob.Spec.{IsStarFree, IsStarFree-all, Matches}
use ircat.State.Glob.Sound.{scan_total}
use ircat.State.Glob.Complete.{glob_match_iff}
use ircat.State.Glob.Evasion.{glob_match_evasion}

equal_test : equal rfc1459 (codes "a[B]") (codes "A{b}") ≡ true
unfolding equal
equal_test = refl

scan_total_example :
    scan (fuel (codes "*a*b") (codes "xaab")) (codes "*a*b") (codes "xaab") none
    ≡ some (glob_match (codes "*a*b") (codes "xaab"))
scan_total_example = scan_total (codes "*a*b") (codes "xaab")

accepted_1 : glob_match (codes "*!*@h?st") (codes "ann!u@host") ≡ true
unfolding glob_match
accepted_1 = refl

short_free : IsStarFree (codes "a@hst")
unfolding all
short_free = IsStarFree-all (codes "a@hst") refl

host_free : IsStarFree (codes "@h")
unfolding all
host_free = IsStarFree-all (codes "@h") refl

glob_match_iff_example :
    (glob_match (codes "*!*@h?st") (codes "a@hst") ≡ true)
    ↔ Matches (codes "*!*@h?st") (codes "a@hst")
glob_match_iff_example = glob_match_iff (codes "*!*@h?st") (codes "a@hst") short_free

glob_match_evasion_example :
    Matches (codes "*@h") (codes "*a@h") × (glob_match (codes "*@h") (codes "*a@h") ≡ false)
glob_match_evasion_example = glob_match_evasion (codes "a") (codes "@h") host_free (λ e. cc e)
