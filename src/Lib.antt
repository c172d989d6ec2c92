-- ===== src/Lib.antt =====
-- VISL CG-3, a constraint grammar engine: a grammar's rules discard, add and relate the readings of
-- the words in a window, each rule where its target set matches a reading and its contextual tests
-- hold.
--
-- Base holds the numbers, lists and tests that the modules share.
--
-- IntervalVector models `interval_vector` of src/interval_vector.hpp, by which the engine keeps the
-- numbers of rules and cohorts: a vector of closed intervals with a count. A C++ iterator into the
-- vector is a cut of it in two lists, the part before it reversed. `insert`, `insert_all` (the
-- constructor from a range), `erase`, `contains`, `find`, `lower_bound`, `begin`, `next`
-- (`operator++`) and `intersect` are the methods of those names. The numbers are `uint32_t`, whose
-- wrap-around is written out. The loops of `intersect` run on fuel, a round for each interval and
-- one more, which is shown to be enough.
--
-- Numeric models the numerical tags: `ops_match` is the ladder of comparisons and `match_numerical`
-- the `T_NUMERICAL` branch of `doesTagMatchReading` in src/GrammarApplicator_matchSet.cpp, and
-- `get_min` and `get_max` are `getMin` and `getMax` of src/Cohort.cpp on the maps that
-- `update_min_max` brings up to date. The `double`s are only compared, and natural numbers stand for
-- them.
--
-- Rules models what `runRulesOnSingleWindow` of src/GrammarApplicator_runRules.cpp does with one
-- cohort for SELECT, REMOVE and IFF: `skips_first` and `skips_second` are the tests that skip it,
-- `scan` is the loop that finds the valid readings, `sort_readings` the loop that acts on them, and
-- `move_out` what is moved to the discarded readings in the end. Whether the target set matches and
-- whether a contextual test holds are functions of the model's environment.
--
-- SetMatch models how `doesSetMatchReading` of src/GrammarApplicator_matchSet.cpp applies the set
-- operators: a SET is a tree, `does_set_match` follows it, and `loop_sets` is the loop over the
-- sub-sets. Whether the tags of a LIST match is a parameter; unification is left out. In
-- SetMatch/Indexed `match_indexed` is the same function with `index_readingSet_yes` and
-- `index_readingSet_no`, on sets with their numbers.
--
-- Hash models the hashes of src/inlines.hpp by which tags, sets and texts are identified:
-- `super_fast_hash_units` and `super_fast_hash` are `SuperFastHash` on UTF-16 code units and on bytes,
-- and `hash_text`, `hash_bytes` and `hash_value` the overloads of `hash_value`. Whether `char` is
-- signed is a parameter.
--
-- SortedVector models `sorted_vector` of src/sorted_vector.hpp, the set of a cohort's dependants.
-- Relations models `addRelation`, `setRelation` and `remRelation` of src/Cohort.cpp on it.
-- Dependency models the tree of src/GrammarApplicator_reflow.cpp: `is_child_of`,
-- `would_parent_child_loop`, `would_parent_child_cross` and `attach_parent_child` are `isChildOf`,
-- `wouldParentChildLoop`, `wouldParentChildCross` and `attachParentChild`, on a function from global
-- numbers to cohorts. The climb makes the 1000 rounds of the code, `rounds`; the loop of the test for
-- crossing has as much fuel as the greater number, more than the rounds it makes.
--
-- Trie models `trie_t` of src/TagTrie.hpp, in which a LIST keeps its composite tags: `trie_insert`,
-- `trie_copy`, `trie_singular`, `has_type` and `tag_list` are the functions of those names there
-- (`trie_hasType`, `trie_getTagList`). `match_trie` is `doesSetMatchReading_trie` and, in Trie/Tags,
-- `does_set_match_tags` is `doesSetMatchReading_tags` of src/GrammarApplicator_matchSet.cpp, where
-- the keys of the trie are merged with the tags of the reading. The merge has fuel for a round for
-- each key and each tag. Whether a single tag matches is a parameter, and unification is left out.
--
-- Binary models the binary grammars of src/BinaryGrammar_write.cpp and src/BinaryGrammar_read.cpp.
-- Binary holds the stream: a reader is a state monad that fails where the code throws or quits, a
-- writer puts bytes in front of what follows. Fields holds the masks of fields and the texts, which
-- ICU converts (`Platform`). Tags, Sets, Contexts and Rules hold the loops of writer and reader over
-- the parts of a grammar, and Grammars the whole, `write_grammar` and `parse_grammar`; each has a
-- child that shows what is written to be read back. In Contexts `write_context` follows
-- `writeContextualTest` through the tests that a test points to, and `write_contexts` is the loop
-- over its templates, its alternatives, its linked tests and over `grammar->contexts`; it gives
-- `none` where a test with the hash 0 ends the program, and so does `write_grammar`. The reader looks
-- a linked test up among the tests read before it, and templates and alternatives at the end
-- (`all_bound`). A linked test that is not there is none, a null pointer in the program; where a
-- template or an alternative is not there, which the program does not check, `parse_grammar` fails.
-- The names of sets without `ST_STATIC` are not in the format
-- (Grammars/Stored). A trie is read on fuel, the length of the stream. Pointers to tags, sets and,
-- in what is read, tests stand as the numbers and hashes by which the format names them, a `double`
-- as the mantissa and the exponent that it is written by; `tag_any` is left out.
--
-- Tagging models `addTagToReading` and `delTagFromReading` of src/GrammarApplicator_reflow.cpp, with
-- `rehash` of src/Reading.cpp and the filters of src/bloomish.hpp. `State` has what a tag changes of
-- the reading, its cohort, the window's bag of tags and the applicator; `add_tag_to_reading` gives
-- `none` where a second mapping tag ends the program. `generateVarstringTag` is a parameter.
--
-- Sections models `runGrammarOnSingleWindow` of src/GrammarApplicator_runRules.cpp: `run_sections` is
-- its loop over the sections, on fuel (`enough_rounds`), and what `runRulesOnSingleWindow` does is a
-- parameter.
--
-- CohortMatch models how a contextual test looks at one cohort, in
-- src/GrammarApplicator_matchSet.cpp: `match_normal` and `match_careful` are
-- `doesSetMatchCohortNormal` and `doesSetMatchCohortCareful`, `match_reading` is
-- `doesSetMatchCohort_helper` and `test_linked` is `doesSetMatchCohort_testLinked`. A cohort is
-- given by what `doesSetMatchReading` says of its readings, and a linked test by its outcome.
--
-- Scan models how a contextual test looks along the text, in
-- src/GrammarApplicator_runContextualTest.cpp: `run_single_test` is `runSingleTest`, and
-- `run_sideways` the part of `runContextualTest` for an offset to the left or the right, from the
-- cohort at the offset on. `visited` is the way of the iterators of src/CohortIterator.cpp along the
-- links `prev` or `next`, which stand as the list of the cohorts that they lead to.
-- Scan/Offset models `getCohortInWindow`, which gives the cohort at an offset.
--
-- Dependents models the iterators of src/CohortIterator.cpp by which tests of dependencies find
-- cohorts: `descendents` is what DepDescendentIter goes through, `ancestors` (Dependents/Ancestors)
-- what DepAncestorIter, and `heads` (Dependents/Heads) what DepParentIter does. The cohorts and their
-- tree are those of Dependency, with their places in the windows. The searches run on fuel, a round
-- for each known number and one more, which is shown to be enough but where DepAncestorIter
-- does not end.
--
-- FlatSet models `flat_unordered_set` of src/flat_unordered_set.hpp, at `uint32_t`: `insert`, `erase`,
-- `find`, `count`, `clear` and `reserve` are the methods of those names, and `probe` the loop that
-- each of them has. It has fuel for a round for each cell; the capacities are powers of two and the
-- step of five is odd, so that it has then been at every cell and would go on for ever. The vectors
-- of the tables are modelled whole, and sizes are numbers without bound.
--
-- TagMatch models how a tag is matched with a reading, in src/GrammarApplicator_matchSet.cpp:
-- `does_tag_match_reading` is `doesTagMatchReading`, `does_regexp_match_reading`,
-- `does_tag_match_regexp`, `does_regexp_match_line` and `does_tag_match_icase` the functions that it
-- calls, with the indexes in `Memory`. What ICU finds in a text, the texts themselves and
-- `generateVarstringTag` are in `World`; generated tags that generate others are followed on fuel.
--
-- Not modelled are the unification of sets, the contextual tests by relation, parenthesis or template,
-- the rules that add or change readings, the links of windows and cohorts, the textual parser, and
-- the format of binary grammars up to revision 10297. Reading and printing of streams, the command
-- lines and the C interface are input and output
-- around this core.
pub mod Base
pub mod Binary
pub mod CohortMatch
pub mod Dependency
pub mod Dependents
pub mod Examples
pub mod FlatSet
pub mod Hash
pub mod IntervalVector
pub mod Numeric
pub mod Relations
pub mod Rules
pub mod Scan
pub mod Sections
pub mod SetMatch
pub mod SortedVector
pub mod TagMatch
pub mod Tagging
pub mod Trie
