-- ===== src/Tests/Chained.antt =====
-- The longest chain of the sample request.
use planner_dev.Prelude.{◌≡◌, refl, ok}
use planner_dev.Critical.{longest_chain}
use planner_dev.Critical.Chains.{IsLongest, longest_chain-IsLongest}
use planner_dev.Networkx.Reference.{reference, reference_laws}
use planner_dev.Tests.Samples.{request, program}

longest_chain-IsLongest_example : IsLongest request 7
longest_chain-IsLongest_example =
    longest_chain-IsLongest reference reference_laws request 7 measured
  where
    measured : longest_chain reference request ≡ ok 7
    measured = unfold longest_chain program in refl
