-- ===== src/Qr/Encode.antt =====
-- The penalty of a matrix, and the choice of its mask, of apps/web/qr.js.
use nuvrion.Common.{
  ℕ, ◌+◌, ◌-◌, ◌*◌, ◌/◌, Bool, true, false, ◌&&◌, ◌||◌, not, List, [], ◌∷◌, map, length, filter_by,
  or_else, ltb, leb, range, if◌then◌else◌,
}
use nuvrion.Common.Results.{Result, ok, ◌>>=◌}
use nuvrion.Qr.Codewords.{QrError, choose_version, data_codewords, interleave}
use nuvrion.Qr.Matrix.{Modules, size_of, blank}
use nuvrion.Qr.Place.{place_version, place_format, place_data}

abbrev pub Row : Type 0
Row = List Bool

abbrev pub same : Bool → Bool → Bool
same true b = b
same false b = not b

-- runs(line), after its first module: the run so far, its colour, and the score of the rest
unfoldable pub run_score : ℕ → ℕ
run_score run = if leb 5 run then run - 2 else 0

unfoldable pub runs_from : Bool → ℕ → Row → ℕ
unfolding run_score
runs_from last run [] = run_score run
runs_from last run (b ∷ bs) =
    let go_on = runs_from b (run + 1) bs in
    let start_again = runs_from b 1 bs in if same b last then go_on else run_score run + start_again

unfoldable pub runs : Row → ℕ
unfolding runs_from run_score
runs [] = run_score 1
runs (b ∷ bs) = runs_from b 1 bs

-- Three for each place from which two rows have a block of four alike.
unfoldable pub blocks_in : Row → Row → ℕ
blocks_in (a ∷ b ∷ upper) (c ∷ d ∷ lower) =
    (if same a b && (same a c && same a d) then 3 else 0) + blocks_in (b ∷ upper) (d ∷ lower)
blocks_in _ _ = 0

unfoldable pub all_blocks : List Row → ℕ
unfolding blocks_in
all_blocks (upper ∷ lower ∷ rows) = blocks_in upper lower + all_blocks (lower ∷ rows)
all_blocks _ = 0

abbrev pub pattern_of_finder : Row
pattern_of_finder =
    true ∷ false ∷ true ∷ true ∷ true ∷ false ∷ true ∷ false ∷ false ∷ false ∷ false ∷ []

abbrev pub reverse_of_finder : Row
reverse_of_finder =
    false ∷ false ∷ false ∷ false ∷ true ∷ false ∷ true ∷ true ∷ true ∷ false ∷ true ∷ []

unfoldable pub starts_with : Row → Row → Bool
starts_with [] line = true
starts_with (p ∷ ps) [] = false
starts_with (p ∷ ps) (b ∷ bs) = same b p && starts_with ps bs

-- finders(line)
unfoldable pub finders : Row → ℕ
unfolding starts_with
finders [] = 0
finders (b ∷ bs) =
    let rest = finders bs in
    (if starts_with pattern_of_finder (b ∷ bs) || starts_with reverse_of_finder (b ∷ bs)
      then 40
      else 0)
    + rest

unfoldable pub score_lines : (Row → ℕ) → List Row → ℕ
score_lines score [] = 0
score_lines score (line ∷ lines) = score line + score_lines score lines

unfoldable pub count_dark : List Row → ℕ
count_dark [] = 0
count_dark (line ∷ lines) = length (filter_by (λ b. b) line) + count_dark lines

-- Math.floor(Math.abs((dark * 100) / (size * size) - 50) / 5) * 10
unfoldable pub balance_score : ℕ → ℕ → ℕ
balance_score size dark =
    let off = (dark * 100 - 50 * (size * size)) + (50 * (size * size) - dark * 100) in
    off / (5 * (size * size)) * 10

-- penalty(modules), given its rows and its columns
unfoldable pub penalty_of : ℕ → List Row → List Row → ℕ
unfolding runs all_blocks finders score_lines count_dark balance_score
penalty_of size lines columns =
    score_lines runs lines
    + score_lines runs columns
    + all_blocks lines
    + (score_lines finders lines + score_lines finders columns)
    + balance_score size (count_dark lines)

-- modules.map(row => row.map(Boolean)), and the same for the columns
unfoldable pub rows_of : ℕ → Modules → List Row
rows_of size modules = map (λ r. map (λ c. or_else (modules r c) false) (range size)) (range size)

unfoldable pub columns_of : ℕ → Modules → List Row
columns_of size modules =
    map (λ c. map (λ r. or_else (modules r c) false) (range size)) (range size)

unfoldable pub penalty : ℕ → Modules → ℕ
unfolding penalty_of rows_of columns_of
penalty size modules = penalty_of size (rows_of size modules) (columns_of size modules)

pub record Candidate : Type 0 where
  pub version : ℕ
  pub size : ℕ
  pub modules : List Row
  pub mask_number : ℕ
  pub score : ℕ

-- The body of encode's loop.
unfoldable pub candidate : ℕ → List ℕ → ℕ → Candidate
unfolding blank place_data place_format place_version penalty rows_of size_of
candidate version codewords mask_number =
    let size = size_of version in
    let start = blank version in
    let drawn = place_data start.1 mask_number size codewords start.0 in
    let modules = place_version size version (place_format size mask_number drawn) in
    record {
      version = version;
      size = size;
      modules = rows_of size modules;
      mask_number = mask_number;
      score = penalty size modules;
    }

-- if (!best || candidate.score < best.score) best = candidate
unfoldable pub better : Candidate → Candidate → Candidate
better best c = if ltb c.score best.score then c else best

unfoldable pub best_of : (ℕ → Candidate) → List ℕ → Candidate → Candidate
unfolding better
best_of draw [] best = best
best_of draw (n ∷ ns) best = best_of draw ns (better best (draw n))

-- encode(text), of the bytes that TextEncoder gives for it
unfoldable pub encode : List ℕ → Result QrError Candidate
encode bytes = choose_version (length bytes) >>= λ version.
    let codewords = interleave (data_codewords bytes version) version in
    ok (
      best_of (candidate version codewords) (1 ∷ 2 ∷ 3 ∷ 4 ∷ 5 ∷ 6 ∷ 7 ∷ [])
        (candidate version codewords 0))
