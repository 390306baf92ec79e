-- ===== src/Libc/Strings.antt =====
-- The length of a string.
use opsys.Base.{false, ℕ, zero, suc, ◌+◌, ◌<◌, ◌≡◌, ◌≢◌, some, ◌==◌, arith, ne→==, eq→==, ap, ◌∙◌}
use opsys.Libc.{Mem, strlen, strlen_from}

strlen_from_lem :
    (n fuel str len : ℕ) (mem : Mem)
    → ((i : ℕ) → i < n → mem (str + i) ≢ 0)
    → mem (str + n) ≡ 0
    → n < fuel
    → strlen_from mem fuel str len ≡ some (len + n)
unfolding strlen_from
strlen_from_lem n zero str len mem chars end f = absurd (omega arith)
strlen_from_lem zero (suc fuel) str len mem chars end f =
    let here : mem str ≡ 0 = ap mem (omega arith) ∙ end in
    rw (eq→== (mem str) 0 here) (ap some (omega arith))
strlen_from_lem (suc n) (suc fuel) str len mem chars end f =
    let here : (mem str == 0) ≡ false =
      ne→== (mem str) 0 (λ e. chars 0 (omega arith) (ap mem (omega arith) ∙ e)) in
    rw here (
      strlen_from_lem n fuel (str + 1) (len + 1) mem
        (λ i h e. chars (suc i) (omega arith) (ap mem (omega arith) ∙ e))
        (ap mem (omega arith) ∙ end) (omega arith)
      ∙ ap some (omega arith))

-- On a string of `n` characters and its NUL, with more fuel than characters, `strlen` ends and
-- returns `n`.
pub strlen_lem :
    (n fuel str : ℕ) (mem : Mem)
    → ((i : ℕ) → i < n → mem (str + i) ≢ 0)
    → mem (str + n) ≡ 0
    → n < fuel
    → strlen mem fuel str ≡ some n
unfolding strlen
strlen_lem n fuel str mem chars end f =
    strlen_from_lem n fuel str 0 mem chars end f ∙ ap some (omega arith)
