-- ===== src/Lib.antt =====
-- A model of a simulated bridge with the link aggregation protocol LACP (IEEE 802.3), and of the
-- manager that links bridges.
--
-- The program. lacp_lib/LACP is the protocol: each port has four state machines (receive,
-- selection, mux, transmit), run by one generic machine until none has anything left to do.
-- lacp_lib/trunk_ssp.c is what the protocol asks of the switch, and lacp_lib/lacp_stub.c the
-- simulated switch behind it. Everything enters through lacp_lib/LACP/lacp_api.c: a frame, a change
-- of a link, a tick of the clock, a configuration. Each such call changes some ports and then calls
-- `lacp_sys_update`, which checks the conditions of all machines and lets them change state until
-- nothing moves.
-- lacp_lib/trunk_api.c calls the library by slot and port, for the commands of lacp_lib/trunk_cli.c.
-- The process of a bridge, lacp_lib/bridge.c, waits for messages, commands and seconds and hands
-- each to one of these calls. Another process, lacp_lib/mngr.c, keeps which port of which bridge is
-- linked to which, and passes frames on over the links.
--
-- The files.
--   Base      names shared by all modules: tests, lists, options, a store of cells
--   State     the octet of flags of lacp_type.h, as a record of eight Booleans
--   Types     the structures of lacp_type.h, lacp_statmch.h and lacp_stub.h, and the whole state
--   Bitmap    lacp_lib/BITMAP/bitmap.c
--   Stub      lacp_lib/lacp_stub.c and the macros of lacp_stub.h
--   Ssp       lacp_lib/trunk_ssp.c
--   Port      lacp_copy_info, lacp_copy_info_from_net, lacp_port_set_reselect
--   Rx        lacp_lib/LACP/lacp_rx.c, the receive machine
--   Sel       lacp_lib/LACP/lacp_sel.c, the selection machine
--   Mux       lacp_lib/LACP/lacp_mux.c, the mux machine
--   Tx        lacp_lib/LACP/lacp_tx.c, the transmit machine
--   Statmch   lacp_lib/LACP/lacp_statmch.c, the generic machine and its loop
--   Sys       lacp_lib/LACP/lacp_sys.c, the system and `lacp_sys_update`
--   Create    lacp_lib/LACP/lacp_port.c, and the initial values of lacp_api.c
--   Api       lacp_api.c: configuration of ports, ticks, creation and removal of ports
--   Events    lacp_api.c: frames, links, configuration of the system
--   Query     lacp_api.c: the calls that report
--   Trunk     lacp_lib/trunk_api.c: settings, aggregations, ports; three calls of trunk_ssp.c
--   Report    trunk_api.c: reports on aggregations and ports
--   Cli       lacp_lib/trunk_cli.c: the commands that change the state
--   Bridge    lacp_lib/bridge.c: the process of a bridge
--   Mngr      lacp_lib/mngr.c: the process that links bridges
--   Settle    potentials that fall with every step of a machine, and the end of the loops
--   Live      the invariant between two calls, for each call from the library to the main loop
--   Tests     concrete systems, at which the theorems are applied
-- The children of a module hold its theorems.
--
-- The state is `World`: the system, a store of port structures, the simulated switch, the frames
-- sent, and what the host supplies. A pointer to a port is its `port_index`; the linked list of
-- ports is a list of indices in the order of the list. A C function that changes the state is a
-- function from worlds to worlds under the name of the C function without its prefix. Each machine
-- has `enter_state` and `check_conditions`, as in C; `check_conditions` returns the state to hop
-- to, and `Statmch.check_condition` makes the hop. A call that may read through a null pointer
-- or past an array, or that runs `lacp_sys_update`, returns an `Outcome`.
--
-- Numbers are natural numbers; counters of 32 bits and fields of 16 bits wrap where the code
-- writes them. The two loops that may run for ever, `lacp_change_state` and `lacp_sys_update`, are
-- functions of fuel, and `Settle` has a bound on the fuel that they use, (16 n + 1)^4 for n ports:
-- the energy of a system is a number in base 16 n + 1 with a digit for each of the four machines,
-- summed over the ports, and it falls with every state that is entered and every hop. The other
-- loops follow a list or a counter.
--
-- Parameters. `Host` has the byte order of the C library, the process id, and the contents of
-- uninitialised local arrays.
--
-- The manager has a state of its own, `Mngr`: the list of bridges by address, what stands at each
-- address, and the messages sent. An address is allocated as long as it is in the list. The matching
-- of ports that it stands for is a partial function between places, a bridge and an index.
--
-- A port structure is allocated as long as its index is in the list of ports; a report that reads
-- through the pointer to a master port that is not crashes.
--
-- Not modelled: traces and printing, but for the read of the trace switch when a frame is received;
-- names of ports (`trunk_ssp_get_port_name` prints more than its array of 4 characters holds); the
-- critical sections (their macros stand for nothing on the platform that the program is built for),
-- allocation failure; sockets, signals,
-- `select` and the terminal; lacp_lib/CLI, lacp_lib/IPC, uid_sock.c and trace.c, which are copies of
-- an RSTP library. Commands arrive with `sscanf` and `atoi` applied. The arrays of the simulated
-- switch have 144 ports, 32 groups and 19 octets; a write beyond a list changes nothing, and
-- nothing is claimed of indices beyond them.
pub mod Base
pub mod State
pub mod Types
pub mod Bitmap
pub mod Stub
pub mod Ssp
pub mod Port
pub mod Rx
pub mod Sel
pub mod Mux
pub mod Tx
pub mod Statmch
pub mod Sys
pub mod Create
pub mod Api
pub mod Events
pub mod Query
pub mod Trunk
pub mod Report
pub mod Cli
pub mod Bridge
pub mod Mngr
pub mod Settle
pub mod Live
pub mod Tests
