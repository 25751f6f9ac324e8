-- ===== src/Identity/BackupCodes.antt =====
-- `normaliseBackupCode` and `hashBackupCode` of modules/identity/src/totp.js.
use nuvrion.Common.{
  ℕ, zero, suc, ◌+◌, Bool, ◌&&◌, not, Option, none, some, List, [], ◌∷◌, ◌++◌, length, every, any,
  filter_by, ◌==◌, if◌then◌else◌,
}
use nuvrion.Identity.Totp.{Platform, is_gap, byte_at}

-- BACKUP_ALPHABET
abbrev backup_alphabet : List ℕ
backup_alphabet =
    b'a' ∷ b'b' ∷ b'c' ∷ b'd' ∷ b'e' ∷ b'f' ∷ b'g' ∷ b'h' ∷ b'j' ∷ b'k' ∷ b'm' ∷ b'n' ∷ b'p' ∷ b'q'
    ∷ b'r' ∷ b's' ∷ b't' ∷ b'u' ∷ b'v' ∷ b'w' ∷ b'x' ∷ b'y' ∷ b'z' ∷ b'2' ∷ b'3' ∷ b'4' ∷ b'5'
    ∷ b'6' ∷ b'7' ∷ b'8' ∷ b'9' ∷ []

unfoldable pub is_backup_letter : ℕ → Bool
is_backup_letter c = any (λ b. c == b) backup_alphabet

-- normaliseBackupCode(raw)
unfoldable pub normalise_backup_code : Platform → List ℕ → Option (List ℕ)
normalise_backup_code platform raw =
    let text = filter_by (λ c. not (is_gap c)) (platform.lower raw) in
    if length text == 10 && every is_backup_letter text then some text else none

-- "nuvrion:backup:"
abbrev hash_prefix : List ℕ
hash_prefix =
    b'n' ∷ b'u' ∷ b'v' ∷ b'r' ∷ b'i' ∷ b'o' ∷ b'n' ∷ b':' ∷ b'b' ∷ b'a' ∷ b'c' ∷ b'k' ∷ b'u' ∷ b'p'
    ∷ b':' ∷ []

-- hashBackupCode(normalised)
unfoldable pub hash_backup_code : Platform → List ℕ → List ℕ
hash_backup_code platform normalised = platform.sha256 (hash_prefix ++ normalised)

-- Letters drawn one after the other from a place on.
unfoldable pub letters_from : (ℕ → ℕ) → ℕ → ℕ → List ℕ
unfolding byte_at
letters_from index start zero = []
letters_from index start (suc n) =
    byte_at backup_alphabet (index start) ∷ letters_from index (start + 1) n

-- generateBackupCodes(count), given what randomInt draws, as the texts that are shown
unfoldable pub generate_backup_codes : (ℕ → ℕ) → ℕ → ℕ → List (List ℕ)
unfolding letters_from
generate_backup_codes index start zero = []
generate_backup_codes index start (suc n) =
    (letters_from index start 5 ++ b'-' ∷ letters_from index (start + 5) 5)
    ∷ generate_backup_codes index (start + 10) n

-- item.replace('-', '')
unfoldable pub without_dash : List ℕ → List ℕ
without_dash [] = []
without_dash (c ∷ cs) = let rest = without_dash cs in if c == b'-' then cs else c ∷ rest
