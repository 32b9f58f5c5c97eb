-- ===== src/Console/Text.antt =====
-- Text as the list of its characters' codes, without the 0 that ends it, and the comparisons of the
-- C library by which NOA_ESP32_PD/usb_pd_protocol.cpp tells the words of a command apart.
use Prim.Native.Char.{code}
use Prim.Native.String.{String}
use noa_esp32_pd.Base.{
  ℕ, zero, suc, ◌+◌, leb, ◌==◌, ◌&&◌, Bool, true, false, if◌then◌else◌, List, [], ◌∷◌,
}

-- The codes of a literal.
abbrev pub codes : String → List ℕ
codes String.[] = []
codes (String.◌∷◌ c s) = code c ∷ codes s

unfoldable pub tolower : ℕ → ℕ
tolower c = if leb 65 c && leb c 90 then c + 32 else c

-- `!strcasecmp(a, b)`
unfoldable pub strcasecmp : List ℕ → List ℕ → Bool
unfolding tolower
strcasecmp [] [] = true
strcasecmp [] (y ∷ ys) = false
strcasecmp (x ∷ xs) [] = false
strcasecmp (x ∷ xs) (y ∷ ys) = tolower x == tolower y && strcasecmp xs ys

-- `!strncasecmp(a, b, n)`
unfoldable pub strncasecmp : ℕ → List ℕ → List ℕ → Bool
unfolding tolower
strncasecmp zero xs ys = true
strncasecmp (suc n) [] [] = true
strncasecmp (suc n) [] (y ∷ ys) = false
strncasecmp (suc n) (x ∷ xs) [] = false
strncasecmp (suc n) (x ∷ xs) (y ∷ ys) = tolower x == tolower y && strncasecmp n xs ys
