-- ===== src/Tests/Session.antt =====
-- A session over a small memory, with an agent that always says the same.
use xarlatan.Common.{ℕ, false, none, [], ◌∷◌, ◌++◌}
use xarlatan.Common.Text.{codes}
use xarlatan.Conversation.{AgentOps, respond}
use xarlatan.Conversation.Kept.{memory_of, Responds, respond-Responds}
use xarlatan.Memory.{plain}
use xarlatan.Tests.Memory.{letters, letters-IsMeasure, remembering, remembering-IsManager}

abbrev parrot : AgentOps ℕ
parrot = record {
  run = λ request w. (
    w,
    record {
      reply = codes " you ";
      history =
          request.history
          ++ plain (codes "user") request.input ∷ plain (codes "assistant") (codes "you") ∷ [];
      trace = record { rounds = []; tool_rounds = 0; stop_reason = none };
    },
    none,
  );
  run_stream = none;
  ctx_err = λ w. (w, none);
}

respond-Responds_example :
    Responds letters parrot false remembering
      (codes "hey")
      (respond (memory_of letters) parrot false remembering (codes "hey") 0)
respond-Responds_example =
    respond-Responds letters parrot false letters-IsMeasure remembering (codes "hey") 0
      remembering-IsManager
