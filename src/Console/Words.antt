-- ===== src/Console/Words.antt =====
-- NOA_ESP32_PD/usb_pd_protocol.cpp: the words of `pd <port> flash <word>...`.
use noa_esp32_pd.Base.{
  taken, not_taken, ℕ, suc, ◌+◌, ◌-◌, ◌*◌, ◌≤◌, ◌<◌, ◌^◌, ltb, leb, ◌==◌, ◌||◌, not, Bool, true,
  false, Bool-cases, inl, inr, ◌≡◌, refl, ap, ◌∙◌, List, [], ◌∷◌, map, some, length, take, arith,
}
use noa_esp32_pd.Base.Int.{ℤ, pos}
use noa_esp32_pd.Protocol.Port.{Port}
use noa_esp32_pd.Host.Hex.{hex8tou32}
use noa_esp32_pd.Host.HexDigits.{print_hex, length-print_hex, hex8tou32-print_hex}
use noa_esp32_pd.Host.Flash.{vdm_pending}
use noa_esp32_pd.Host.Delivery.{message, queued, sent, queued_lem}
use noa_esp32_pd.Console.Text.{codes, strcasecmp}
use noa_esp32_pd.Console.State.{CmdResult, fault, returns, Console, too_high}
use noa_esp32_pd.Console.Flashing.{
  with_word, parse_words, wait_idle, put_port, send_flash, write_words, remote_flashing,
}

-- Words of 32 bits, and how they are typed.
abbrev pub AreWords : List ℕ → Type 0
AreWords [] = Unit
AreWords (v ∷ vs) = (v < 2 ^ 32) × AreWords vs

abbrev pub typed : Bool → List ℕ → List (List ℕ)
typed upper vs = map (print_hex upper 8) vs

read_back : (upper : Bool) (v : ℕ) → v < 2 ^ 32 → hex8tou32 (print_hex upper 8 v) ≡ some v
read_back upper v h = hex8tou32-print_hex upper 8 v (omega arith) h

-- A good word that fits, and one that does not.
fits :
    (i v : ℕ) (s : List ℕ) (rest : List (List ℕ))
    → hex8tou32 s ≡ some v
    → i < 6
    → parse_words i (s ∷ rest) ≡ with_word v (parse_words (i + 1) rest)
unfolding parse_words
fits i v s rest h lt = let small : leb 6 i ≡ false = ground arith in ground (arith, h, small)

overruns :
    (i v : ℕ) (s : List ℕ) (rest : List (List ℕ))
    → hex8tou32 s ≡ some v
    → 6 ≤ i
    → parse_words i (s ∷ rest) ≡ fault
unfolding parse_words
overruns i v s rest h le = let big : leb 6 i ≡ true = ground arith in ground (arith, h, big)

parse_words-typed :
    (upper : Bool) (i : ℕ) (vs : List ℕ)
    → AreWords vs
    → i + length vs ≤ 6
    → parse_words i (typed upper vs) ≡ returns (some vs)
unfolding parse_words with_word
parse_words-typed upper i [] w h = refl
parse_words-typed upper i (v ∷ vs) (lt, w) h =
    fits i v (print_hex upper 8 v) (typed upper vs) (read_back upper v lt) (omega arith)
    ∙ ap (with_word v) (parse_words-typed upper (i + 1) vs w (omega arith))

parse_words-overruns :
    (upper : Bool) (i : ℕ) (vs : List ℕ)
    → AreWords vs
    → i ≤ 6
    → 6 < i + length vs
    → parse_words i (typed upper vs) ≡ fault
unfolding parse_words with_word
parse_words-overruns upper i [] w le h = absurd (omega arith)
parse_words-overruns upper i (v ∷ vs) (lt, w) le h = elim (Bool-cases (leb 6 i)) [
  | inl big ↦
      overruns i v (print_hex upper 8 v) (typed upper vs) (read_back upper v lt) (ground arith)
  | inr small ↦
      fits i v (print_hex upper 8 v) (typed upper vs) (read_back upper v lt) (ground arith)
      ∙ ap (with_word v) (parse_words-overruns upper (i + 1) vs w (ground arith) (omega arith))
]

strcasecmp-length : (xs ys : List ℕ) → strcasecmp xs ys ≡ true → length xs ≡ length ys
unfolding strcasecmp
strcasecmp-length [] [] h = refl
strcasecmp-length [] (y ∷ ys) h = ground arith
strcasecmp-length (x ∷ xs) [] h = ground arith
strcasecmp-length (x ∷ xs) (y ∷ ys) h = ground (arith, strcasecmp-length xs ys)

-- A typed word is none of the names of a subcommand.
no_name :
    (upper : Bool) (v n : ℕ) (name : List ℕ)
    → length name ≡ n
    → (n == 8) ≡ false
    → strcasecmp (print_hex upper 8 v) name ≡ false
no_name upper v n name h g = elim (Bool-cases (strcasecmp (print_hex upper 8 v) name)) [
  | inl e ↦
      ground (arith, strcasecmp-length (print_hex upper 8 v) name e, length-print_hex upper 8 v)
  | inr e ↦ e
]

length-typed : (upper : Bool) (vs : List ℕ) → length (typed upper vs) ≡ length vs
length-typed upper [] = refl
length-typed upper (v ∷ vs) = ap suc (length-typed upper vs)

-- `pd <port> flash <word>...`
abbrev pub flash_line : Bool → List ℕ → List ℕ → List ℕ → List ℕ → List (List ℕ)
flash_line upper pd port flash vs = pd ∷ port ∷ flash ∷ typed upper vs

module _ {S : Type 0} (others : Port S → Port S) (strtoi : List ℕ → ℤ × List ℕ) (fuel : ℕ)
    (upper : Bool) (pd port flash : List ℕ) where
  to_words :
      (v : ℕ) (vs : List ℕ) (c : Console S)
      → strtoi port ≡ (pos 0, [])
      → length vs ≤ 6
      → remote_flashing others strtoi fuel (flash_line upper pd port flash (v ∷ vs)) c
        ≡ write_words others fuel
            (pos 0)
            (flash_line upper pd port flash (v ∷ vs))
            (parse_words 0 (typed upper (v ∷ vs)))
            c
  unfolding remote_flashing too_high
  to_words v vs c h short =
      let argv = flash_line upper pd port flash (v ∷ vs) in
      let counted : (ltb (length argv) 4 || ltb (7 + 4 - 1) (length argv)) ≡ false =
        ground (arith, length-typed upper vs) in
      let cmd = print_hex upper 8 v in
      let p = strtoi port in
      let port_ok : (not (length p.1 == 0) || too_high p.0) ≡ false = rw (h) refl in
      let write =
        λ (n : ℤ). write_words others fuel n argv (parse_words 0 (typed upper (v ∷ vs))) c in
      not_taken (ltb (length argv) 4 || ltb (7 + 4 - 1) (length argv)) _ _ counted
      ∙ not_taken (not (length p.1 == 0) || too_high p.0) _ _ port_ok
      ∙ not_taken (strcasecmp cmd (codes "erase")) _ _ (no_name upper v 5 (codes "erase") refl refl)
      ∙ not_taken (strcasecmp cmd (codes "reboot")) _ _
          (no_name upper v 6 (codes "reboot") refl refl)
      ∙ not_taken (strcasecmp cmd (codes "signature")) _ _
          (no_name upper v 9 (codes "signature") refl refl)
      ∙ not_taken (strcasecmp cmd (codes "info")) _ _ (no_name upper v 4 (codes "info") refl refl)
      ∙ not_taken (strcasecmp cmd (codes "version")) _ _
          (no_name upper v 7 (codes "version") refl refl)
      ∙ ap (λ (q : ℤ × List ℕ). write q.0) h

take_all : (xs : List ℕ) → take (length xs) xs ≡ xs
take_all [] = refl
take_all (x ∷ xs) = ap (λ l. x ∷ l) (take_all xs)

module _ {S : Type 0} (others : Port S → Port S) (strtoi : List ℕ → ℤ × List ℕ) (fuel : ℕ)
    (upper : Bool) (pd port flash : List ℕ) where
  wait_twice :
      (w : Port S)
      → vdm_pending w.vdm_state ≡ true
      → vdm_pending (others w).vdm_state ≡ false
      → wait_idle others (suc (suc fuel)) w ≡ returns (others w)
  unfolding wait_idle
  wait_twice w h g =
      taken (vdm_pending w.vdm_state) (wait_idle others (suc fuel) (others w)) (returns w) h
      ∙ not_taken (vdm_pending (others w).vdm_state) (wait_idle others fuel (others (others w)))
          (returns (others w)) g

  -- One to six words of 32 bits, typed as 8 hexadecimal digits each, in upper or in lower case,
  -- behind `pd 0 flash`: where the other tasks are done with the message after one wait, the command
  -- succeeds, the message that was queued holds just these words in their order, and the offset has
  -- grown by four for each.
  pub remote_flashing-queues :
      (v : ℕ) (vs : List ℕ) (c : Console S)
      → AreWords (v ∷ vs)
      → length vs ≤ 5
      → strtoi port ≡ (pos 0, [])
      → length c.port.vdo_data ≡ 7
      → let n = length (v ∷ vs) in
        let m = message (v ∷ vs) n c.port in
        vdm_pending (others m).vdm_state ≡ false
        → (remote_flashing others strtoi
              (suc (suc fuel))
              (flash_line upper pd port flash (v ∷ vs))
              c
            ≡ returns
                (record c { port = others m; flash_offset = c.flash_offset + n * 4 }, CmdResult.ok))
          × (queued m ≡ v ∷ vs)
  unfolding write_words send_flash put_port vdm_pending
  remote_flashing-queues v vs c w short h seven over =
      let n = length (v ∷ vs) in
      let m = message (v ∷ vs) n c.port in
      let argv = flash_line upper pd port flash (v ∷ vs) in
      let d = record c { flash_offset = c.flash_offset + n * 4 } in
      (
        to_words others strtoi (suc (suc fuel)) upper pd port flash v vs c h (omega arith)
            ∙ ap (λ o. write_words others (suc (suc fuel)) (pos 0) argv o c)
                (parse_words-typed upper 0 (v ∷ vs) w (omega arith))
            ∙ ap (λ q. put_port d (wait_idle others (suc (suc fuel)) q))
                (sent (v ∷ vs) n c.port (omega arith))
            ∙ ap (put_port d) (wait_twice m refl over),
        queued_lem (v ∷ vs) c.port.vdo_data n (omega arith) (omega arith) seven ∙ take_all (v ∷ vs),
      )

  -- Seven words of 32 bits, typed the same way, are not refused by their count, and the last one is
  -- stored behind the end of `data`.
  pub remote_flashing-overruns :
      (v : ℕ) (vs : List ℕ) (c : Console S)
      → AreWords (v ∷ vs)
      → length vs ≡ 6
      → strtoi port ≡ (pos 0, [])
      → remote_flashing others strtoi fuel (flash_line upper pd port flash (v ∷ vs)) c ≡ fault
  unfolding write_words
  remote_flashing-overruns v vs c w seven h =
      let argv = flash_line upper pd port flash (v ∷ vs) in
      to_words others strtoi fuel upper pd port flash v vs c h (omega arith)
      ∙ ap (λ o. write_words others fuel (pos 0) argv o c)
          (parse_words-overruns upper 0 (v ∷ vs) w (omega arith) (omega arith))
