-- ===== src/Cli/Output/Writes.antt =====
-- The loop of writes of src/effectprobe/_cli.py (_write_report) ends.
use effect_probe.Prelude.{
  ℕ, zero, suc, ◌+◌, ◌-◌, ◌≤◌, ◌≡◌, ◌≢◌, List, [], ◌∷◌, drop, length, ltb, arith, Bool-cases, inl,
  inr,
}
use effect_probe.Exception.{raised, value}
use effect_probe.Exception.Bind.{bind-raised}
use effect_probe.Cli.{Host}
use effect_probe.Cli.Output.{out_of_fuel, write_from, write_all}

length-drop : (n : ℕ) (bytes : List ℕ) → length (drop n bytes) ≡ length bytes - n
length-drop zero bytes = omega arith
length-drop (suc n) [] = omega arith
length-drop (suc n) (b ∷ bytes) = omega (arith, length-drop n bytes)

-- A write of something takes a byte at least, and it raises what Python raises.
pub record Writes {W : Type 0} (host : Host W) : Type 0 where
  pub progress :
      (descriptor : ℕ) (bytes : List ℕ) (w : W) {n : ℕ} {w' : W}
      → 1 ≤ length bytes
      → host.write descriptor bytes w ≡ (value n, w')
      → 1 ≤ n
  pub honest :
      (descriptor : ℕ) (bytes : List ℕ) (w : W) {w' : W}
      → host.write descriptor bytes w ≢ (raised out_of_fuel, w')

write_from-ends :
    {W : Type 0} (host : Host W)
    → Writes host
    → (fuel descriptor : ℕ) (bytes : List ℕ) (offset : ℕ) (w : W) {w' : W}
    → length bytes ≤ offset + fuel
    → write_from host fuel descriptor bytes offset w ≢ (raised out_of_fuel, w')
unfolding write_from
write_from-ends host writes zero descriptor bytes offset w enough e = ground arith
write_from-ends host writes (suc fuel) descriptor bytes offset w {w'} enough e =
    elim (Bool-cases (ltb offset (length bytes))) [
      | inl more ↦
          elim (bind-raised (host.write descriptor (drop offset bytes))
            (λ n. write_from host fuel descriptor bytes (offset + n)) w {x = out_of_fuel} {s' = w'}
            (rw more at e)) [
              | inl at_once ↦ writes.honest descriptor (drop offset bytes) w at_once
              | inr (n, w₁, wrote, later) ↦
                  let left : 1 ≤ length (drop offset bytes) =
                    ground (arith, more, length-drop offset bytes) in
                  let some_bytes = writes.progress descriptor (drop offset bytes) w left wrote in
                  write_from-ends host writes fuel descriptor bytes (offset + n) w₁ (omega arith)
                    later
            ]
      | inr done ↦ ground (arith, done)
    ]

-- If each write of something takes at least one byte when it returns, and never raises what the
-- model raises without fuel, then the loop that writes a report has fuel enough.
pub write_all-ends :
    {W : Type 0} (host : Host W) (descriptor : ℕ) (bytes : List ℕ) (w w' : W)
    → Writes host
    → write_all host descriptor bytes w ≢ (raised out_of_fuel, w')
unfolding write_all
write_all-ends host descriptor bytes w w' writes =
    write_from-ends host writes (length bytes) descriptor bytes 0 w (omega arith)
