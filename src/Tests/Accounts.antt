-- ===== src/Tests/Accounts.antt =====
-- The account table.
use ntut_network_and_system.Base.{
  ℕ, ◌≡◌, refl, List, [], ◌∷◌, codes, done, some, none, false, All, arith, ◌+◌,
}
use ntut_network_and_system.Base.Int.{neg, pos}
use ntut_network_and_system.CString.{str_eq, c_str, terminated}
use ntut_network_and_system.Float.Sample.{Tiny, num, nan, tiny_ops, tiny_IsOrdered, nan-IsNan}
use ntut_network_and_system.Account.{
  account_find, account_init, AccountDb, Outcome, account_create, account_deposit, account_withdraw,
}
use ntut_network_and_system.Account.Invariant.{IsValid}
use ntut_network_and_system.Account.View.{balance_of}
use ntut_network_and_system.Account.Ledger.{
  credit, post, Op, create, deposit, withdraw, query, view, Fits, call, calls, posts,
}
use ntut_network_and_system.Account.Refine.{calls-Implements}
use ntut_network_and_system.Account.Total.{Settles, call-Settles}
use ntut_network_and_system.Account.Faults.{nan_deposit_lifts_limit, create_unterminated_twice}
use ntut_network_and_system.Tests.Data.{
  alice, fresh_table, fresh_table-IsValid, opened_table, opened_table-IsValid, opened_table-alice,
}
use ntut_network_and_system.Base.Int.{◌+ℤ◌, ◌-ℤ◌}
use ntut_network_and_system.CString.{str_eq}
use ntut_network_and_system.Account.{account_find, find_from, account_init}
use ntut_network_and_system.Account.Ledger.{credit}

abbrev pub day : List (Op Tiny)
day =
    create alice (num (pos 50))
    ∷ deposit alice (num (pos 20))
    ∷ withdraw alice (num (pos 100))
    ∷ withdraw alice (num (pos 30))
    ∷ query alice
    ∷ []

pub day-Fits : All Fits day
unfolding terminated c_str
day-Fits = ((refl, omega arith), (tt, (tt, (tt, (tt, tt)))))

calls-Implements_example :
    (db' : AccountDb Tiny) × (calls tiny_ops day fresh_table
      ≡ done ((posts tiny_ops day (view fresh_table)).0, db'))
    × IsValid tiny_ops db'
    × (view db' ≡ (posts tiny_ops day (view fresh_table)).1)
calls-Implements_example =
    calls-Implements tiny_ops fresh_table day tiny_IsOrdered fresh_table-IsValid day-Fits

call-Settles_example : Settles tiny_ops (call tiny_ops (withdraw alice (num (pos 60))) opened_table)
call-Settles_example =
    call-Settles tiny_ops opened_table (withdraw alice (num (pos 60))) tiny_IsOrdered
      opened_table-IsValid

nan_deposit_lifts_limit_example :
    (o o' : Outcome Tiny) × (account_deposit tiny_ops opened_table alice nan ≡ done o)
    × (o.code ≡ pos 0)
    × (account_withdraw tiny_ops o.db alice (num (pos 1000)) ≡ done o')
    × (o'.code ≡ pos 0)
    × (o'.written ≡ some nan)
nan_deposit_lifts_limit_example =
    nan_deposit_lifts_limit tiny_ops opened_table alice nan (num (pos 50)) tiny_IsOrdered
      opened_table-IsValid nan-IsNan opened_table-alice (num (pos 1000)) refl

abbrev no_nul : List ℕ
no_nul = codes "abcdefghijklmnopqrst"

no_nul-terminated : terminated no_nul ≡ false
unfolding terminated
no_nul-terminated = refl

create_unterminated_twice_example :
    (o o' : Outcome Tiny) × (account_create tiny_ops opened_table no_nul (num (pos 5)) ≡ done o)
    × (o.code ≡ pos 0)
    × (balance_of o.db no_nul ≡ none)
    × (account_create tiny_ops o.db no_nul (num (pos 5)) ≡ done o')
    × (o'.code ≡ pos 0)
    × (o'.db.account_count ≡ opened_table.account_count + 2)
unfolding account_init
create_unterminated_twice_example =
    create_unterminated_twice tiny_ops opened_table no_nul (num (pos 5)) opened_table-IsValid
      no_nul-terminated refl (omega arith)

day_codes :
    (posts tiny_ops day (view fresh_table)).0
    ≡ (pos 0, none)
      ∷ (pos 0, some (num (pos 70)))
      ∷ (neg 3, none)
      ∷ (pos 0, some (num (pos 40)))
      ∷ (pos 0, some (num (pos 40)))
      ∷ []
unfolding posts post credit str_eq balance_of account_find find_from account_init ◌+ℤ◌ ◌-ℤ◌
day_codes = refl
