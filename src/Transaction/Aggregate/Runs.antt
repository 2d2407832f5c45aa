-- ===== src/Transaction/Aggregate/Runs.antt =====
-- Aggregating and deaggregating two payments.
use vcash.Prelude.{◌≡◌, refl, [], ◌∷◌, ◌++◌, ok}
use vcash.Transaction.Types.{Transaction}
use vcash.Transaction.Toy.{toy, toy_keys, payment}
use vcash.Transaction.Sorting.{sort_unstable}
use vcash.Transaction.CutThrough.{cut_through, cut_lists, cut_loop}
use vcash.Transaction.Aggregate.{
  aggregate, aggregate_all, join_bodies, sum_kernel_offsets, deaggregate, remaining_offset,
}
use vcash.Transaction.Aggregate.Remainder.{IsRemainder, deaggregate-IsRemainder}

abbrev first : Transaction
first = payment 1 11 9

abbrev second : Transaction
second = payment 2 12 9

abbrev both : Transaction
both = record {
  offset = 23;
  body = record {
    inputs = first.body.inputs ++ second.body.inputs;
    token_inputs = [];
    outputs = first.body.outputs ++ second.body.outputs;
    token_outputs = [];
    kernels = first.body.kernels ++ second.body.kernels;
    token_kernels = [];
  };
}

aggregated : aggregate toy toy_keys (second ∷ first ∷ []) ≡ ok both
unfolding aggregate aggregate_all join_bodies sum_kernel_offsets cut_through cut_lists cut_loop
    sort_unstable
aggregated = refl

-- An output that the next transaction spends is cut through.
chained :
    aggregate toy toy_keys (first ∷ payment 11 13 9 ∷ [])
    ≡ ok (record {
      offset = 24;
      body = record {
        inputs = first.body.inputs;
        token_inputs = [];
        outputs = (payment 11 13 9).body.outputs;
        token_outputs = [];
        kernels = first.body.kernels ++ (payment 11 13 9).body.kernels;
        token_kernels = [];
      };
    })
unfolding aggregate aggregate_all join_bodies sum_kernel_offsets cut_through cut_lists cut_loop
    sort_unstable
chained = refl

deaggregated : deaggregate toy toy_keys both (first ∷ []) ≡ ok (record second { offset = 12 })
unfolding deaggregate aggregate remaining_offset sort_unstable
deaggregated = refl

deaggregate-IsRemainder_example :
    (tx : Transaction) × ((aggregate toy toy_keys (first ∷ []) ≡ ok tx)
      × IsRemainder toy toy_keys both.body tx.body second.body)
deaggregate-IsRemainder_example =
    deaggregate-IsRemainder toy toy_keys both (record second { offset = 12 }) (first ∷ [])
      deaggregated
