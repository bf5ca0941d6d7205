-- ===== src/Export/Names.antt =====
-- The names of the files that src/export/export_color_to_images.cpp (`seq_name`) and
-- src/export/export_depth_to_images.cpp write.
use kist_data_collector.Common.{
  ℕ, zero, suc, ◌-◌, ◌<◌, ◌^◌, ◌≤◌, ◌≡◌, refl, sym, ap, ◌∙◌, ◌++◌, some, some_injective, arith,
  length, length-append,
}
use kist_data_collector.Common.Text.{Text, text, decimal, padded, zeros}
use kist_data_collector.Common.Scan.{scan_unsigned, scan_unsigned-padded}
use kist_data_collector.Schema.{snprintf-lt, length-decimal-u64}
use kist_data_collector.Export.ImageRun.{jpg_name}

length-zeros : (n : ℕ) → length (zeros n) ≡ n
length-zeros zero = refl
length-zeros (suc n) = ap suc (length-zeros n)

length-padded : (n : ℕ) → n < 2 ^ 64 → length (padded 10 n) ≤ 20
unfolding padded
length-padded n h = omega (
  arith,
  length-append (zeros (10 - length (decimal n))) (decimal n),
  length-zeros (10 - length (decimal n)),
  length-decimal-u64 n h,
)

-- The sequence number is read back off a file's name, so that no two frames share a file.
pub scan-jpg_name :
    (seq : ℕ) → seq < 2 ^ 64 → scan_unsigned (jpg_name seq) ≡ some (seq, text ".jpg")
unfolding jpg_name
scan-jpg_name seq h =
    rw
      (snprintf-lt 32 (padded 10 seq ++ text ".jpg")
        (omega (arith, length-append (padded 10 seq) (text ".jpg"), length-padded seq h)))
      (scan_unsigned-padded 10 seq (text ".jpg") refl)

pub jpg_name-injective :
    (seq other : ℕ) → seq < 2 ^ 64 → other < 2 ^ 64 → jpg_name seq ≡ jpg_name other → seq ≡ other
jpg_name-injective seq other h k e =
    ap (λ (p : ℕ × Text). p.0)
      (some_injective (sym (scan-jpg_name seq h) ∙ ap scan_unsigned e ∙ scan-jpg_name other k))
