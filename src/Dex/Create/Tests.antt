-- ===== src/Dex/Create/Tests.antt =====
-- A run of the creation of a pool of x/dex, beside a pool that is there.
use text.Mathlib.Text.{◌==◌ as str_eq}
use earth_network_chain.Base.{
  no_value, some_injective, ◌≡◌, refl, inl, inr, true, none, some, Result, ok, err, arith,
  Bool-cases,
}
use earth_network_chain.Dex.Amm.{initial_shares, sqrt}
use earth_network_chain.Dex.Deposit.Add.{pull_pair}
use earth_network_chain.Dex.Fixtures.{funds, funds-IsBank, market, market-IsBacked, holdings}
use earth_network_chain.Dex.Create.{Creation, settled, MsgCreatePool, Created, create_pool}
use earth_network_chain.Dex.Create.Booked.{IsFresh, Creates, create_pool-Creates}

abbrev after_auction : Creation
after_auction = record { auction = some settled; pool_seq = 2 }

market-IsFresh : IsFresh after_auction market
market-IsFresh = record {
  pools = λ j le. ground (arith, le);
  tokens = λ token j there. elim (Bool-cases (str_eq token "anml")) [
    | inl same ↦ let e : 1 ≡ j = some_injective (rw same at there) in omega (arith, e)
    | inr other ↦ let e : none ≡ some j = rw other at there in absurd (no_value e)
  ];
}

abbrev listing : MsgCreatePool
listing = record {
  creator = "ada";
  amount_a = record { denom = "uatom"; amount = 400 };
  amount_b = record { denom = "uerth"; amount = 900 };
}

abbrev created_or : Created funds → Result (Created funds) → Created funds
created_or none_created (ok r) = r
created_or none_created (err e) = none_created

abbrev created : Created funds
created =
    created_or
      (record { id = 0; shares = 0; creation = after_auction; store = market; bank = holdings })
      (create_pool funds (λ a. some 7) (λ d. true) 99 listing after_auction market holdings)

create_pool-Creates_example : Creates funds 99 listing after_auction market holdings created
unfolding create_pool pull_pair initial_shares sqrt
create_pool-Creates_example =
    create_pool-Creates funds 99 listing after_auction market holdings funds-IsBank market-IsBacked
      market-IsFresh (λ a. some 7) (λ d. true) created refl
