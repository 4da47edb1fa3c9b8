-- ===== src/Detector/Signal.antt =====
-- internal/detector/signals.go, ParseSignal: the text of a signal. A signal is a natural number: an offset
-- that leads below zero from RTMIN gives 0 here and a negative number in the code.
use nodux.Base.{
  ℕ, suc, ◌+◌, ◌-◌, String, [], ◌∷◌, Option, none, some, string_eq, if◌then◌else◌, is_empty,
  or_else, ℤ, pos, negsuc,
}
use nodux.Dict.{Dict, lookup}
use nodux.Detector.Labels.{Parsers, of_positive}

-- `strings.ToUpper`, and `strings.CutPrefix` of a prefix and a text.
pub record Affixes : Type 0 where
  pub to_upper : String → String
  pub cut_prefix : String → String → Option String

abbrev pub trim_prefix : Affixes → String → String → String
trim_prefix a pre s = or_else (a.cut_prefix pre s) s

abbrev signal_numbers : Dict String ℕ
signal_numbers =
    ("HUP", 1)
    ∷ ("INT", 2)
    ∷ ("QUIT", 3)
    ∷ ("ILL", 4)
    ∷ ("TRAP", 5)
    ∷ ("ABRT", 6)
    ∷ ("IOT", 6)
    ∷ ("BUS", 7)
    ∷ ("FPE", 8)
    ∷ ("KILL", 9)
    ∷ ("USR1", 10)
    ∷ ("SEGV", 11)
    ∷ ("USR2", 12)
    ∷ ("PIPE", 13)
    ∷ ("ALRM", 14)
    ∷ ("TERM", 15)
    ∷ ("STKFLT", 16)
    ∷ ("CHLD", 17)
    ∷ ("CONT", 18)
    ∷ ("STOP", 19)
    ∷ ("TSTP", 20)
    ∷ ("TTIN", 21)
    ∷ ("TTOU", 22)
    ∷ ("URG", 23)
    ∷ ("XCPU", 24)
    ∷ ("XFSZ", 25)
    ∷ ("VTALRM", 26)
    ∷ ("PROF", 27)
    ∷ ("WINCH", 28)
    ∷ ("IO", 29)
    ∷ ("POLL", 29)
    ∷ ("PWR", 30)
    ∷ ("SYS", 31)
    ∷ []

abbrev sig_rtmin : ℕ
sig_rtmin = 34

abbrev from_rtmin : Option ℤ → ℕ
from_rtmin none = 0
from_rtmin (some (pos n)) = sig_rtmin + n
from_rtmin (some (negsuc n)) = sig_rtmin - suc n

module _ (p : Parsers) (a : Affixes) where
  -- What stands after "SIG".
  unfoldable named_signal : String → ℕ
  named_signal s = elim (lookup s signal_numbers) [
    | some n ↦ n
    | none ↦ elim (a.cut_prefix "RTMIN" s) [
      | none ↦ 0
      | some rest ↦
          if is_empty rest then sig_rtmin else from_rtmin (p.atoi (trim_prefix a "+" rest))
    ]
  ]

  unfoldable pub parse_signal : String → ℕ
  unfolding named_signal
  parse_signal raw =
      let s = a.to_upper (p.trim_space raw) in
      if is_empty s then 0 else elim (of_positive (p.atoi s)) [
        | some n ↦ n
        | none ↦ named_signal (trim_prefix a "SIG" s)
      ]
