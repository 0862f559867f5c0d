-- ===== src/Serial/Polling.antt =====
-- `serial_write` on a port that becomes ready.
use waddle_os.Base.{ℕ, zero, suc, ◌+◌, ◌<◌, ◌≡◌, refl, ◌≢◌, ◌∷◌, bit_and, arith, ok, ne→==, eq→==}
use waddle_os.Machine.{Machine, out, inp, outb, >>=-ok}
use waddle_os.Serial.{write, poll, is_tx_empty}

-- What the line status register answers in a state, and the state behind that read.
abbrev pub status : ℕ → Machine → ℕ
status port s = s.device s.trace (port + 5)

abbrev pub asked : ℕ → Machine → Machine
asked port s = record s { trace = inp (port + 5) (status port s) ∷ s.trace }

-- The state behind `n` reads of the status.
abbrev pub polled : ℕ → ℕ → Machine → Machine
polled port zero s = s
polled port (suc n) s = polled port n (asked port s)

poll-ready :
    (n fuel port : ℕ) (s : Machine)
    → n < fuel
    → ((i : ℕ) → i < n → bit_and (status port (polled port i s)) 0x20 ≡ 0)
    → bit_and (status port (polled port n s)) 0x20 ≢ 0
    → poll fuel (is_tx_empty port) s ≡ ok (tt, polled port (suc n) s)
unfolding poll is_tx_empty
poll-ready n zero port s h busy ready = absurd (omega arith)
poll-ready zero (suc fuel) port s h busy ready =
    rw (ne→== (bit_and (status port s) 0x20) 0 ready) refl
poll-ready (suc n) (suc fuel) port s h busy ready =
    rw (eq→== (bit_and (status port s) 0x20) 0 (busy 0 (omega arith))) (
      poll-ready n fuel port (asked port s) (omega arith) (λ i p. busy (suc i) (omega arith)) ready)

-- If the transmitter is busy for `n` reads of the line status and then empty, `serial_write` reads
-- the status `n + 1` times, writes its byte once, and returns; a bound above `n` on its polling is
-- enough.
pub write-ready :
    (n fuel port a : ℕ) (s : Machine)
    → n < fuel
    → ((i : ℕ) → i < n → bit_and (status port (polled port i s)) 0x20 ≡ 0)
    → bit_and (status port (polled port n s)) 0x20 ≢ 0
    → write fuel port a s
      ≡ ok (
        tt,
        record (polled port (suc n) s) { trace = out port a ∷ (polled port (suc n) s).trace },
      )
unfolding write
write-ready n fuel port a s h busy ready =
    >>=-ok (poll fuel (is_tx_empty port)) (λ _. outb port a) (poll-ready n fuel port s h busy ready)
