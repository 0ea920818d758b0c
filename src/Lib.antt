-- ===== src/Lib.antt =====
-- The carried state, the page arena, the liveness facts, the routing types, the leaf lattice and the
-- fact runner of RoLA, modelled and proved. RoLA is a recurrent attention
-- operator; its carried state lives in pages that an arena commits as the routing writes them, and
-- each call is a walk over declared nodes that fold facts into decisions and launches.
--
-- The files, and the code that each models:
--
--   Prelude          names of the libraries, lists, Python's exceptions as a result type, and
--                    methods that change an object and may raise (Prelude/Methods).
--   Tensor           the tensor operations that the arena calls, on lists.
--   Rules            rola/engine/types.py (Mask, Arm, CallClass, PlanOverrides) and
--                    rola/engine/rules/ (arm, envelope, mask, paging, run_table), one function for each
--                    rule. Rules/Placement, Rules/RunTable and Rules/Envelope are about admission, run_table,
--                    and the arm with its envelope.
--   Keying           rola/ops/paging.py AtomKeying; Keying/Address is its address law.
--   Extents          ExtentAllocator of the same file: a cursor that moves as the rule admission says.
--   Vmm              csrc/rola/src/paging/vmm_owner.cu, the create and grow of a reserved plane, as the
--                    number of bytes that are mapped. Which totals of bytes the driver will map is
--                    the field maps of an owner; a growth that it refuses raises. The arena calls it
--                    through the extension module.
--   Arena            PageArena of rola/ops/paging.py. A method that changes the arena and may raise is
--                    a function of the arena to a result and the arena afterwards, a raise included:
--                    plan_exact, reset and refill_pool, with _reserve_pool, _commit and
--                    _admit_pages below them. Arena/Create is the constructor and _resolve_backing.
--                    Arena/Invariant says what holds between calls; Reserve, Reset, Plan, Refill and
--                    Created take it through the operations; Residency, Fresh and Refusal are
--                    about what plan_exact returns, and Reachable is the life of an arena over its
--                    methods, a step relation. Arena/Starved is an arena whose driver does not map a
--                    growth, and Arena/View the arena without its slots.
--   State            rola/_state.py. State is StateFormat and the descriptor of a call; State/Carried is
--                    RoLAState with what binds, checks, commits and steps, State/Entry is _kernel_entry
--                    and _decode_entry_arena, with refill_pool of rola/engine/dags/decode_dag.py, and
--                    State/Clone is clone. State/Widths and
--                    State/Format are about the format; State/Invariant says what holds between
--                    calls, which Held, Sound, Bound, Life, Copy, Copied and Cloned take through the
--                    operations, and State/Reach is the life of a state, a step relation; Refused,
--                    Refines and Decode are about what an entry returns.
--   Liveness         rola/engine/facts/liveness.py at one batch-head: the layout and the statics of a side;
--                    Liveness/Words is the pass with _pack and unpack, Liveness/Boxes is Box, and
--                    Liveness/Folds is the folds over boxes and atoms. Layout, Roundtrip, Mask and Spans are
--                    about them; Lanes, RowLanes, Runs, Numbers and Digits take the bits of the
--                    words through the folds, for Activity.
--   Padding          rola/routing/topology.py and rola/ops/padding.py, with Padding/Level and
--                    Padding/Value about them.
--   Routing          rola/routing/activations.py and rola/routing/types.py: the registry, the four kinds
--                    of level and the topology; Routing/Decay is LeafMassDecay, Routing/Packed is
--                    ResolvedRouting with the columns of the packed router, and Routing/Descriptor is
--                    RouteDescriptor. Constructed, Padded, Clock, Runs, Columns, Sides, Metadata,
--                    Canonical and Accepted are about them. Routing/Plan is the descriptor at the end of
--                    production_routing_factors, of rola/routing/entmax/production.py.
--                    Routing/Factors is RouteFactors of rola/routing/factors.py, with Entries and
--                    Bundle about it.
--   Call             a chunk call: rola/engine/facts/call.py and operands.py, and the nodes
--                    classify_call, residency and backing of rola/engine/facts/nodes.py.
--                    Call/Context is the context of rola/engine/dags/chunk_dag.py and its
--                    validate_context; Envelope and Accepted are about them, and Band is about the
--                    step of the runner at the residency node under the mask of the call. Call/Dag is CHUNK_DAG, a DAG of
--                    the runner whose node functions are a parameter, and build_chunk_plan; Walk is
--                    about it.
--   Runner           rola/engine/runner.py: node, validate_dag, validate_capturable and run. A fact
--                    bag is an association list, an object a value of a type V, and a node's function
--                    a parameter of the node, which may raise. Runner/Names is the bag as a
--                    dictionary; Complete, Honest, Memo, Memo/Plain and Supplied are about run, Honest
--                    about nodes that may raise.
--   Lattice          rola/ops/lattice.py: the leaf order at one leaf. Lattice/Box is box_shape, which
--                    chooses the spans, and permutation; Order and Fitted are about the two.
--                    Lattice/Atoms is atom_rectangle and walk_unit. Lattice/Search is derive_lattice,
--                    with Ranks, Admitted, Scan and Best about it, and Lattice/Convert is to_lattice
--                    and to_canonical, with Planes about them.
--   Launch           rola/engine/constants.py: the launch table, the box and the stream count, with
--                    Launch/Streams about the last.
--   */Tests          the theorems at concrete arguments.
--
-- The components meet as in the code: an admission of the arena asks the allocator for a run, the
-- allocator asks the rule where it lands, the arena has the backing grow to the new cursor, and only
-- then writes the page table and the zeros. A call on a carried state presents the format of its
-- routing, binds or checks it, and then plans the arena of the state for the atoms that it writes. A
-- topology pads its widths by the rule of the padding seam, and a plan takes the layout of its
-- descriptor from the levels. A chunk call is checked against its bundle, the decay against the
-- topology, and the rules of the envelope against all three, before the walk begins. A tensor is a
-- list, or its shape, type, layout and device where the code looks at no more; the page table and
-- the pool map are flat, none for the absent page, and a page is read and written whole, so it is an
-- element of a type P. A count of atoms is a length, so it is never negative, and slot numbers stay
-- below the arena's capacity, which the int32 of the table holds.
--
-- Parameters: what the driver says of a device (whether it is CUDA, and the probe), which bytes the
-- driver will map when a plane grows (a valid arena has one that serves its reservation), the arms
-- that the binary was built for, whether gradients are enabled, the float pool_slack (whether it is
-- in range, and the ceiling of its product with a count, which is at most the count), math.log2 cut
-- to an int (box_shape tests what it gives), the contents of memory that is reserved and never
-- written, and, for the runner, what a walk asks of Python's objects. All loops are structural
-- recursion on their sequence or on the number of rounds left. Four loops are on fuel, and end by
-- their own conditions within it: the search of box_shape for its innermost exponent has the width,
-- the halving of derive_stream_count the count it starts from, and of the two loops of
-- derive_lattice the outer has four rounds, since its spans are 1, 2 and 4, and the inner one more
-- than the product of the widths, since its capacities are the powers of two up to it.
--
-- Not modelled: the float amplitudes, which are 16-bit words to the pass, and the plain accessors
-- of a state; streams and events beyond whether one is recorded; the bytes of a page and
-- materialize, which reads them; the claims of pool slots that a decode kernel makes on the device,
-- and their fold into the table; the steps by which the driver rolls a failed growth back; the
-- collection of a per-state memo when its state is dropped; unhashable memo keys; a node's function
-- that itself writes the bag; the test of signatures by the decorator rule; the projections, the
-- entmax solver and the packed logits of the routing, and validate_packed_router, which looks at
-- them. Floating-point operators, kernels, and the tools have no model.
pub mod Prelude
pub mod Tensor
pub mod Rules
pub mod Keying
pub mod Extents
pub mod Vmm
pub mod Arena
pub mod State
pub mod Liveness
pub mod Padding
pub mod Routing
pub mod Call
pub mod Runner
pub mod Lattice
pub mod Launch
