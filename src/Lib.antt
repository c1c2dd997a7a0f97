-- ===== src/Lib.antt =====
-- A verification library for the Gomoku engine (engine/), its plugin SDK (plugin/) and the desktop
-- application (app/).
--
-- Prelude: shared names, tests, lists, signed integers, exclusive or, texts as lists of codes,
--   floats as an interface, predicates on optional results.
-- Engine/Action, Engine/Board: struct Action and class Board of engine/src/board.h and board.cpp.
--   The state is the record Board with the fields of the class. Board.antt has the Zobrist keys
--   and ToggleHash; Win has CheckWin; Rules has the constructor, TransitionPhase, Apply and
--   Retract; Play has the queries. An `int` action id, coordinate or move count is an integer ℤ; a
--   64-bit hash is the number of its bit pattern. The outputs of std::mt19937_64, which fill the
--   key table, are a parameter `rng`, and the laws need nothing of it.
--   CheckWin's walks run on 16 rounds of fuel, one more than a row has cells. The floats 1.0, 0.0 and -1.0
--   of GetValueForSeat are integers.
-- Engine/Action/Text: ToString and FromString of an action, with std::stoi for the numbers.
-- Engine/BatchQueue: engine/src/batched_blocking_queue.h, as a step relation: Push, Shutdown and
--   the parts of PopBatch between its waits are steps, and a wait that may time out may end at any
--   moment. The lengths stay below the range of `int`. There is one consumer.
-- Plugin/State: BoardState of plugin/include/plugin/gomoku_types.h and plugin/src/gomoku_types.cpp;
--   Apply has TransitionPhase and ApplyAction.
-- Plugin/Difficulty, Plugin/Player: the levels and the interface of a player, a record of a state
--   and its calls, which the coordinator takes as a parameter for each seat.
-- Plugin/HumanPlayer: plugin/src/human_player.cpp. A call that holds the mutex is one step, and
--   InquireAction is two, before and after its wait: the waiting thread tests its condition only when a
--   call notified it, so that wakes for no reason are not covered.
-- Plugin/MatchCoordinator: plugin/src/match_coordinator.cpp, over two players and a callback. The
--   loop of PlayMatch runs on 228 rounds of fuel: 225 stones, two choices of Swap2 and an illegal
--   answer. InquireAction of a player is a function, so a player that never answers is not covered.
-- Engine/Vcf: engine/src/vcf_solver.h and vcf_solver.cpp, the solver for wins by continuous fours.
--   Threats finds fives and fours, Search is the search that makes and unmakes moves on one position,
--   Solve the calls. Walks along a line run on 16 rounds of fuel, one more than a line has cells, and
--   the search on one round more than max_nodes: each round visits a node.
-- Engine/Mcts: engine/src/mcts.h and mcts.cpp, the tree search. A float is a value of the interface
--   Float (Prelude/Float), of which no law is used; the evaluator of engine/src/evaluator.h, the clock,
--   the random numbers and the two solvers are parameters. A node's children are a forest, and a node
--   is named by its path from the root. Policy has the policies, the masks and the root noise, Walk
--   the descent, Batch the batch of simulations, Run Search, and Search the rest of the class. The
--   evaluations of solved leaves run after the evaluator instead of beside it, on the same boards. The
--   loop of Search runs on fuel, and out of fuel there is no result: with a limit of simulations, one
--   more than the limit is enough; with a deadline, the fuel is more than the rounds until the clock
--   passes it. Counts of visits
--   stay below the range of `int`.
-- Engine/SelfPlay: engine/src/self_play.cpp, games of the tree search on the board. An evaluator is a
--   number in place of its address; the selector, the evaluators, the solvers and the arithmetic on
--   doubles are parameters. Its loop has the bound of 230 actions that the code has. Sample has the
--   choice of an action, Run the game, Generate the training examples.
-- Engine/RandomEvaluator: engine/src/random_evaluator.cpp, an evaluator of the tree search.
-- App/BoardViewModel: the cells of app/src/core/board_view_model.cpp, without the signals to Qt.
-- App/ReplayController: app/src/core/replay_controller.cpp. The database is a parameter that gives
--   the moves of a match, and the timer's timeout is a call.
-- Below each module stand its proofs, named for what they show, and the tests.
--
-- Not modelled: the other evaluators, which work on tensors of a library; sockets, JSON, the
-- database, dynamic loading and the Qt interface, which are libraries; the Python programs.
pub mod Prelude
pub mod Engine
pub mod Plugin
pub mod App
