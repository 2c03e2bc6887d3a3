-- ===== src/Tests/Tool.antt =====
-- The theorems on truncated output at three lines, of which two fit, and at a line that is too long.
use attention.Prelude.{◌≡◌, ◌≤◌, len, refl, join}
use attention.Tool.Truncate.{TruncationOptions, truncate_head, line_limit, byte_limit}
use attention.Tool.Truncate.Fits.{Fits, Counts, truncate_head-Fits}
use attention.Tool.Truncate.Partial.{
  IsLongestEnd, truncate_string_to_bytes_from_end, truncate_string_to_bytes_from_end-IsLongestEnd,
}
use attention.Tool.Truncate.Tail.{IsTail, truncate_tail, truncate_tail-Fits}

abbrev opts : TruncationOptions
opts = record { max_lines = 2; max_bytes = 100 }

truncate_head-Fits_example :
    Fits "a.go\nb.go\nc.go\n"
      (line_limit opts)
      (byte_limit opts)
      (truncate_head "a.go\nb.go\nc.go\n" opts)
truncate_head-Fits_example = truncate_head-Fits "a.go\nb.go\nc.go\n" opts

truncate_tail-Fits_example :
    let r = truncate_tail "a.go\nb.go\nc.go\n" opts in
    (r.output_lines ≤ line_limit opts)
    × (len r.content ≤ byte_limit opts)
    × Counts "a.go\nb.go\nc.go\n" r
    × IsTail "a.go\nb.go\nc.go\n" (byte_limit opts) r
truncate_tail-Fits_example = truncate_tail-Fits "a.go\nb.go\nc.go\n" opts

truncate_string_to_bytes_from_end-IsLongestEnd_example :
    IsLongestEnd "größe" 4 (truncate_string_to_bytes_from_end "größe" 4)
truncate_string_to_bytes_from_end-IsLongestEnd_example =
    truncate_string_to_bytes_from_end-IsLongestEnd "größe" 4

end_of_word : truncate_string_to_bytes_from_end "größe" 4 ≡ "ße"
unfolding truncate_string_to_bytes_from_end
end_of_word = refl

last_two : (truncate_tail "a.go\nb.go\nc.go\n" opts).content ≡ "b.go\nc.go"
unfolding truncate_tail join
last_two = refl
