-- ===== src/Base/FnmatchTests.antt =====
-- Runs of `fnmatch`.
use mathlib.Core.Path.{◌≡◌, refl}
use mathlib.Core.Bool.{true, false}
use enterprise_data_access_a.Base.Fnmatch.{fnmatch}

fnmatch_runs :
    (fnmatch "ec2:DescribeInstances" "ec2:Describe*" ≡ true)
    × (fnmatch "ec2:RunInstances" "ec2:Describe*" ≡ false)
    × (fnmatch "s3:Get" "s3:[a-zG]?t" ≡ true)
    × (fnmatch "s3:Get" "s3:[!a-z]et" ≡ true)
    × (fnmatch "a]b" "a[]]b" ≡ true)
    × (fnmatch "a[b" "a[b" ≡ true)
    × (fnmatch "x-y" "x[a-]y" ≡ true)
unfolding fnmatch
fnmatch_runs = (refl, refl, refl, refl, refl, refl, refl)
