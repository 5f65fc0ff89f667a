-- ===== src/State/Numbering.antt =====
-- The sequence numbers of the log records of src/web/state.rs.
use netix_republisher.Prelude.{
  Bool-cases, List, String, [], arith, if◌then◌else◌, inl, inr, leb, length, length-concat, suc, ℕ,
  ◌%◌, ◌++◌, ◌+◌, ◌-◌, ◌<◌, ◌∷◌, ◌≡◌, ◌≤◌,
}
use netix_republisher.State.{LogRecord, Shared, drop_oldest, log_capacity, push_log, word}
use netix_republisher.Engine.{Engine, LogLevel}

-- Consecutive numbers from `n` on.
abbrev pub NumberedFrom : ℕ → List LogRecord → Type 0
NumberedFrom n [] = Unit
NumberedFrom n (r ∷ rs) = (r.seq ≡ n) × NumberedFrom (suc n) rs

-- The records bear the last numbers up to `log_seq`, in order and without a gap.
pub record IsNumbered {I : Type 0} (s : Shared I) : Type 0 where
  pub enough : length s.logs ≤ s.log_seq
  pub in_order : NumberedFrom (suc s.log_seq - length s.logs) s.logs

NumberedFrom-concat :
    (n : ℕ) (rs : List LogRecord) (r : LogRecord)
    → NumberedFrom n rs
    → r.seq ≡ n + length rs
    → NumberedFrom n (rs ++ r ∷ [])
NumberedFrom-concat n [] r h e = (omega arith, tt)
NumberedFrom-concat n (x ∷ rs) r (same, h) e =
    (same, NumberedFrom-concat (suc n) rs r h (omega arith))

NumberedFrom-eq : (m n : ℕ) (rs : List LogRecord) → m ≡ n → NumberedFrom m rs → NumberedFrom n rs
NumberedFrom-eq m n rs e h = rw (← e) h

-- What `push_log` keeps before it adds a record.
kept_logs : List LogRecord → List LogRecord
unfolding drop_oldest
kept_logs logs = if leb log_capacity (length logs) then drop_oldest logs else logs

kept_logs-NumberedFrom :
    (seq : ℕ) (logs : List LogRecord)
    → length logs ≤ seq
    → NumberedFrom (suc seq - length logs) logs
    → NumberedFrom (suc seq - length (kept_logs logs)) (kept_logs logs)
      × (length (kept_logs logs) ≤ seq)
unfolding kept_logs
kept_logs-NumberedFrom seq [] le h = (tt, omega arith)
kept_logs-NumberedFrom seq (r ∷ rs) le (same, h) =
    elim (Bool-cases (leb log_capacity (length (r ∷ rs)))) [
      | inl full ↦ rw full (NumberedFrom-eq _ _ rs (omega arith) h, omega arith)
      | inr room ↦ rw room ((same, h), le)
    ]

module _ {I : Type 0} (engine : Engine I) where
  -- While the counter does not wrap, the numbers stay consecutive and end at the counter.
  pub push_log-IsNumbered :
      (level : LogLevel) (message : String) (s : Shared I)
      → s.log_seq + 1 < word
      → IsNumbered s
      → IsNumbered (push_log engine level message s).1
  unfolding push_log kept_logs
  push_log-IsNumbered level message s small v =
      let (h, le) = kept_logs-NumberedFrom s.log_seq s.logs v.enough v.in_order in
      let seq : (s.log_seq + 1) % word ≡ suc s.log_seq = omega arith in
      let entry = (push_log engine level message s).0 in
      let long = length-concat (kept_logs s.logs) entry in
      record {
        enough = omega (arith, seq, long);
        in_order =
            NumberedFrom-eq (suc s.log_seq - length (kept_logs s.logs)) _
              (kept_logs s.logs ++ entry ∷ []) (omega (arith, seq, long))
              (NumberedFrom-concat _ (kept_logs s.logs) entry h (omega (arith, seq)));
      }
