-- ===== src/Executor/Port.antt =====
-- pkg/engine/executor/executor.go, `stablePortForNode` and `hashCode`, in Go's 64-bit `int`. A word
-- is a number below 2 ^ 64 that stands for a signed integer in two's complement.
use cldctl.Text.{Text}
use cldctl.Prelude.{
  [], arith, if◌then◌else◌, leb, ltb, negsuc, pos, ℕ, ℤ, ◌%◌, ◌*◌, ◌++◌, ◌+◌, ◌-◌, ◌<◌, ◌∷◌, ◌≡◌,
  ◌≤◌,
}

abbrev pub word : ℕ
word = 18446744073709551616

abbrev pub half_word : ℕ
half_word = 9223372036854775808

-- `h = 31*h + int(c)` for each character.
unfoldable pub hash_from : ℕ → Text → ℕ
hash_from h [] = h
hash_from h (c ∷ cs) = hash_from ((31 * h + c) % word) cs

-- `if h < 0 { h = -h }`, which overflows at the least integer.
unfoldable pub hash_code : Text → ℕ
unfolding hash_from
hash_code s = let h = hash_from 0 s in if ltb h half_word then h else (word - h) % word

-- `10000 + (h % 50000)`, with Go's remainder, which has the sign of `h`.
unfoldable pub port_of_hash : ℕ → ℤ
port_of_hash h =
    if ltb h half_word
    then pos (10000 + h % 50000)
    else (let r = (word - h) % 50000 in
        if leb r 10000 then pos (10000 - r) else negsuc (r - 10000 - 1))

unfoldable pub stable_port_for_node : Text → Text → Text → ℤ
unfolding hash_code port_of_hash
stable_port_for_node env_name component_name port_name =
    port_of_hash (hash_code (env_name ++ b'/' ∷ (component_name ++ b'/' ∷ port_name)))

hash_from-lt : (h : ℕ) (s : Text) → h < word → hash_from h s < word
unfolding hash_from
hash_from-lt h [] p = p
hash_from-lt h (c ∷ cs) p = hash_from-lt ((31 * h + c) % word) cs (omega arith)

-- The hash of a key is the least integer.
abbrev pub Overflows : Text → Text → Text → Type 0
Overflows env_name component_name port_name =
    hash_from 0 (env_name ++ b'/' ∷ (component_name ++ b'/' ∷ port_name)) ≡ half_word

-- Unless the 64-bit hash of the environment's, component's and port's names is the least integer,
-- the port is from 10000 up to 59999.
pub stable_port_for_node_bounds :
    (env_name component_name port_name : Text)
    → ¬ Overflows env_name component_name port_name
    → (p : ℕ) × (stable_port_for_node env_name component_name port_name ≡ pos p)
      × (10000 ≤ p)
      × (p < 60000)
unfolding stable_port_for_node
stable_port_for_node_bounds e c n h =
    let k = hash_code (e ++ b'/' ∷ (c ++ b'/' ∷ n)) in
    let below = hash_from-lt 0 (e ++ b'/' ∷ (c ++ b'/' ∷ n)) (omega arith) in
    (10000 + k % 50000, ground (arith, below), omega arith, omega arith)

-- If the 64-bit hash of the three names is the least integer, its negation overflows and the port
-- is -15808.
pub stable_port_for_node_overflow :
    (env_name component_name port_name : Text)
    → Overflows env_name component_name port_name
    → stable_port_for_node env_name component_name port_name ≡ negsuc 15807
unfolding stable_port_for_node
stable_port_for_node_overflow e c n h = rw h
