-- ===== src/Lib.antt =====
-- The core of the TransLucid interpreter (src/libs/system, with its headers in src/include/tl).
--
-- TransLucid is a language of intensions: an expression has a value in a context, which gives an
-- ordinate to every dimension. The evaluator perturbs the context by a tuple, evaluates, and
-- restores it; it remembers values in a cache, by the ordinates of the dimensions that they turned
-- out to depend on. Values are constants, tuples, ranges and regions among them. The source text
-- comes through a tokenizer that cuts it into lines, and a lexer that decodes its strings.
--
-- The parts, and what in the sources they correspond to:
--
-- - Context: src/libs/system/context.cpp and src/include/tl/context.hpp. A dimension has a place
--   in a deque, with a stack of ordinates and a copy of its top; `perturb`, `restore`, `lookup`,
--   `has_entry`, `operator Tuple` (`to_tuple`), `fillDelta` and `reset`. Stacks and Restore hold
--   the map from dimensions to stacks that the deque stands for, Delta the two walks over it,
--   Compare has `operator<=` (`le`), and Perturber the class ContextPerturber and the rho marks.
-- - Workshops: src/libs/system/eval_workshops.cpp with src/include/tl/types/intension.hpp and
--   demand.hpp, the evaluators of constants, identifiers, `if`, `#`, regions, tuples, `@` and
--   intensions. Workshops itself has the values and the tree of workshops, a node for each class,
--   with what the system keeps (the values of identifiers, the numbers of the dimensions, the
--   hashes of constants) in the record World; constants that the workshops only pass on are the
--   parameter X. Uncached has `operator()(Context&)` and Cached `operator()(Context&, Delta&, w,
--   t)`, with one turn of each of its loops in Cached/Turns; Delta has the set of known dimensions
--   and the class DeltaPerturber. Fuel bounds the depth of the evaluation, which an identifier
--   that stands for itself makes endless; `none` means that it was too little. Answers relates the
--   two evaluators, Support the part of the context that they read, and Tuples has the cases where
--   the two differ. The rho marks of a context are left out there, since none of these workshops
--   reads them.
-- - Cache: src/libs/system/cache.cpp and src/include/tl/cache.hpp. Tree has the data, Get, Set and
--   Collect the visitors behind `Cache::get`, `set` and `garbageCollect`; Shape is the invariant
--   of the tree, Keep that `set` and the collection preserve it, Memo what `get` and `set` promise
--   each other, and Laws the same for the whole cache. A std::map of the cache is the list of its
--   bindings; the order of the bindings is not modelled, since no operation reads it. Workshop has
--   `CacheWS::operator()` with a Delta, around any expression: a function of the ordinates of the
--   context, the known dimensions, the time and the cache. Its fuel is the number of rounds; one
--   more than the Delta has dimensions is enough, since every round but the last adds one of them.
--   Path says where a context leads in the tree, with the invariant of a cache of right values;
--   Lookup, Place, Right, Found and Root follow `get` and `set` along that path, and Sound puts
--   them together. Known and Remember follow the path of a constant that the cache has, for the
--   second call of the operator in Again. Link has `CacheWS::operator()(Context&)`, with and
--   without the cache: its loop answers a demand by telling the dimension and asking again, on
--   fuel for its rounds, and an expression that demands only dimensions of a finite list needs at
--   most one round more than the list is long. Asks and Stays follow the dimensions that the cache
--   can demand, Lacking counts those that are not known, and Linked puts this together.
-- - LineTokenizer: src/libs/system/line_tokenizer.cpp and src/include/tl/line_tokenizer.hpp. The
--   input is a list of code points; Reader has the state and the reading of single characters. A
--   function returns, or throws `EndOfInput` or `NewLineInString`. Each loop runs on fuel, one
--   round more than there are characters left; Fuel shows that this is enough, and Text follows
--   the characters into the line.
-- - Escape: `build_escaped_characters` of src/libs/system/lexer_util.cpp. iconv is a parameter;
--   what utf32_to_utf8 and utf8_to_utf32 of src/libs/system/utility.cpp make of its answer is
--   modelled, as compiled with iconv. The loop runs on fuel, one round more than there are
--   characters.
-- - Uuid: src/libs/system/uuid.cpp and src/include/tl/uuid.hpp. Bytes are numbers, and a shift of
--   a byte wraps at 256.
-- - Charset: the validation in src/include/tl/charset.hpp, and `u32_to_ascii` of
--   src/libs/system/utility.cpp.
-- - Types: src/libs/system/tyinf/type.cpp and src/include/tl/tyinf/type.hpp, the types that the
--   inference computes with. Atomics is `TypeAtomicUnion`, where an iterator of its map says
--   whether it points into the union's own set: those of a copy do not, and an erasure through one
--   is undefined, which is `none`; Bounds has `construct_lub` and `construct_glb`, where `none`
--   stands for `throw BoundInvalid` too; Compare has the equality of types and
--   `type_term_contains_neg` and `_pos`, and puts the operations together for the graph; Subtype
--   is `subc` of constraint_graph.cpp. Its recursion runs on fuel, one more than the sizes of the
--   two types together, which Subtype/Fuel shows to be enough.
-- - ConstraintGraph: src/libs/system/tyinf/constraint_graph.cpp and its header. The graph maps a
--   variable to its node; the types of the bounds are any type with the operations of `TypeOps`,
--   so that the order of the variables (Closure), the processing of constraints (Constraints,
--   Growth) and `collect` (Collect) do not depend on them. `add_to_closure` runs its queue on
--   fuel; no fuel is shown to be enough for all constraints, and what is shown holds when it
--   returns.
-- - BestFit: `regionSubset`, `regionApplicable`, `tupleRefines` and
--   `ConditionalBestfitWS::bestfit` of src/libs/system/bestfit.cpp, on any constants with the
--   operations of `ConstantOps`; Values fills these by `valueRefines`, on constants that are no
--   tuples and no regions. Priorities has the equations by priority and the `operator()` of a
--   context; what a guard evaluates to is a field of the equation.
-- - Union: `UnionType` of src/libs/system/types/union.cpp.
-- - Dimensions: src/include/tl/object_registry.hpp and src/libs/system/dimtranslator.cpp.
-- - Range: src/libs/system/range.cpp and src/include/tl/range.hpp, with an open bound as `none`.
-- - Region and Tuple: src/libs/system/region.cpp and the class Tuple of src/libs/system/types.cpp.
--   A std::map is the list of its entries in the order of the keys. Ordered has the contract of an
--   `operator<` and the loop by which both compare their entries.
--
-- Prelude has the arithmetic and the lemmas on lists that these share, OrderedSet the std::set by an
-- `operator<` and the sorted vectors of `insert_sorted`.
--
-- An integer of GMP is an integer; a dimension_index, which is an int32_t in the source, is an
-- integer too, since its values index a deque in memory. Reading behind the end of an input, or
-- popping an empty stack, where the source has no defined behaviour, is an outcome of its own.
--
-- Not modelled: `MinimalContext` and `topRho` of the context; the random generator of UUIDs;
-- hashes; of the types, their printing and fresh variables; of the constraint graph, the
-- rewriting, renaming and copying; of the best fit, the comparison of constants that are tuples or
-- regions, the cached evaluation and the compilation of guards; of the workshops, `BangOpWS`,
-- `HostOpWS`, `BaseAbstractionWS`, the abstraction and the application of functions, and
-- `WhereWS`; the parser, the passes over the syntax tree, and the visitor of the type inference;
-- input and output.
pub mod Prelude
pub mod Workshops
pub mod OrderedSet
pub mod Types
pub mod ConstraintGraph
pub mod Dimensions
pub mod Union
pub mod BestFit
pub mod Range
pub mod Ordered
pub mod Tuple
pub mod Region
pub mod Context
pub mod Cache
pub mod LineTokenizer
pub mod Uuid
pub mod Charset
pub mod Escape
